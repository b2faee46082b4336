-- ===== src/Platform/Input/Numbers.antt =====
-- Reading a number back out of the text that `std::to_string` makes of it.
use Prim.Native.Char.{Char, code}
use Prim.Native.String.{◌++◌}
use text.Mathlib.TextLemmas.{cons-append, nil-append, append-nil, append_assoc}
use g_agent.Platform.Input.Words.{spaceless}
use g_agent.Base.{
  glue, append-glue, not-false, nat_beq_iff, ◌||◌, ℕ, zero, suc, ◌+◌, ◌*◌, ◌/◌, ◌%◌, ◌≤◌, ◌<◌,
  String, Bool, true, false, ◌&&◌, not, leb, ltb, ◌==◌, nat_key, ℤ, pos, negsuc, ◌≡◌, refl, sym, ap,
  ◌∙◌, arith, Bool-cases, inl, inr,
}
use g_agent.Platform.Input.{
  input, is_space, is_digit, digit, take_digits, decimal_digits, signed, magnitude_at, int_at,
  read_int, skip, decimal, to_string,
}

-- A property of all ten digits.
on_digits :
    (P : ℕ → Type 0) (n : ℕ)
    → n < 10
    → P 0
    → P 1
    → P 2
    → P 3
    → P 4
    → P 5
    → P 6
    → P 7
    → P 8
    → P 9
    → P n
on_digits P zero h a b c d e f g i j k = a
on_digits P (suc zero) h a b c d e f g i j k = b
on_digits P (suc (suc zero)) h a b c d e f g i j k = c
on_digits P (suc (suc (suc zero))) h a b c d e f g i j k = d
on_digits P (suc (suc (suc (suc zero)))) h a b c d e f g i j k = e
on_digits P (suc (suc (suc (suc (suc zero))))) h a b c d e f g i j k = f
on_digits P (suc (suc (suc (suc (suc (suc zero)))))) h a b c d e f g i j k = g
on_digits P (suc (suc (suc (suc (suc (suc (suc zero))))))) h a b c d e f g i j k = i
on_digits P (suc (suc (suc (suc (suc (suc (suc (suc zero)))))))) h a b c d e f g i j k = j
on_digits P (suc (suc (suc (suc (suc (suc (suc (suc (suc zero))))))))) h a b c d e f g i j k = k
on_digits P (suc (suc (suc (suc (suc (suc (suc (suc (suc (suc n)))))))))) h a b c d e f g i j k =
    absurd (omega (arith, h))

take_digits-digit :
    (k n : ℕ) (t : String) → n < 10 → take_digits k (digit n ++ t) ≡ take_digits (k * 10 + n) t
unfolding take_digits
take_digits-digit k n t h =
    on_digits (λ n. take_digits k (digit n ++ t) ≡ take_digits (k * 10 + n) t) n h (front "0")
      (front "1") (front "2") (front "3") (front "4") (front "5") (front "6") (front "7")
      (front "8") (front "9")
  where
    front : (c : Char) → take_digits k (String.◌∷◌ c "" ++ t) ≡ take_digits k (String.◌∷◌ c t)
    front c = ap (take_digits k) (cons-append c "" t ∙ ap (String.◌∷◌ c) (nil-append t))

-- The text starts with a digit.
abbrev starts_digit : String → Bool
starts_digit String.[] = false
starts_digit (String.◌∷◌ c s) = is_digit c

starts_digit-digit : (n : ℕ) (t : String) → n < 10 → starts_digit (digit n ++ t) ≡ true
starts_digit-digit n t h =
    on_digits (λ n. starts_digit (digit n ++ t) ≡ true) n h (front "0" refl) (front "1" refl)
      (front "2" refl) (front "3" refl) (front "4" refl) (front "5" refl) (front "6" refl)
      (front "7" refl) (front "8" refl) (front "9" refl)
  where
    front : (c : Char) → is_digit c ≡ true → starts_digit (String.◌∷◌ c "" ++ t) ≡ true
    front c e = rw (cons-append c "" t) e

ltb-less : (a b : ℕ) → ltb a b ≡ true → a < b
ltb-less a b h = ground arith

less-ltb : (a b : ℕ) → ltb a b ≡ false → b ≤ a
less-ltb a b h = ground arith

decimal_digits-append :
    (f n : ℕ) (out t : String) → decimal_digits f n out ++ t ≡ decimal_digits f n (out ++ t)
unfolding decimal_digits
decimal_digits-append zero n out t = refl
decimal_digits-append (suc f) n out t = elim (Bool-cases (ltb n 10)) [
  | inl e ↦ rw e (append_assoc (digit n) out t)
  | inr e ↦ rw e (
      decimal_digits-append f (n / 10) (digit (n % 10) ++ out) t
      ∙ ap (decimal_digits f (n / 10)) (append_assoc (digit (n % 10)) out t))
]

take_digits-decimal_digits :
    (f n : ℕ) (t : String) → n < f → take_digits 0 (decimal_digits f n t) ≡ take_digits n t
unfolding decimal_digits
take_digits-decimal_digits zero n t h = absurd (omega (arith, h))
take_digits-decimal_digits (suc f) n t h = elim (Bool-cases (ltb n 10)) [
  | inl e ↦
      rw e (take_digits-digit 0 n t (ltb-less n 10 e) ∙ ap (λ k. take_digits k t) (omega arith))
  | inr e ↦
      let big : 10 ≤ n = less-ltb n 10 e in
      rw e (
        take_digits-decimal_digits f (n / 10) (digit (n % 10) ++ t) (omega (arith, big, h))
        ∙ take_digits-digit (n / 10) (n % 10) t (omega arith)
        ∙ ap (λ k. take_digits k t) (omega arith))
]

starts_digit-decimal_digits :
    (f n : ℕ) (t : String) → n < f → starts_digit (decimal_digits f n t) ≡ true
unfolding decimal_digits
starts_digit-decimal_digits zero n t h = absurd (omega (arith, h))
starts_digit-decimal_digits (suc f) n t h = elim (Bool-cases (ltb n 10)) [
  | inl e ↦ rw e (starts_digit-digit n t (ltb-less n 10 e))
  | inr e ↦
      let big : 10 ≤ n = less-ltb n 10 e in
      rw e (starts_digit-decimal_digits f (n / 10) (digit (n % 10) ++ t) (omega (arith, big, h)))
]

-- An `int` of 32 bits.
abbrev pub is_int : ℤ → Bool
is_int (pos n) = leb n 2147483647
is_int (negsuc n) = leb n 2147483647

-- A text in front of which a number ends.
abbrev ends_number : String → Bool
ends_number String.[] = true
ends_number (String.◌∷◌ c s) = not (is_digit c)

take_digits-ends_number : (n : ℕ) (t : String) → ends_number t ≡ true → take_digits n t ≡ (n, t)
unfolding take_digits
take_digits-ends_number n String.[] h = refl
take_digits-ends_number n (String.◌∷◌ c t) h = rw (not-false (is_digit c) h) refl

take_digits-decimal :
    (n : ℕ) (t : String) → ends_number t ≡ true → take_digits 0 (decimal n ++ t) ≡ (n, t)
unfolding decimal
take_digits-decimal n t h =
    ap (take_digits 0)
      (decimal_digits-append (suc n) n "" t ∙ ap (decimal_digits (suc n) n) (nil-append t))
    ∙ take_digits-decimal_digits (suc n) n t (omega arith)
    ∙ take_digits-ends_number n t h

starts_digit-decimal : (n : ℕ) (t : String) → starts_digit (decimal n ++ t) ≡ true
unfolding decimal
starts_digit-decimal n t =
    ap starts_digit
      (decimal_digits-append (suc n) n "" t ∙ ap (decimal_digits (suc n) n) (nil-append t))
    ∙ starts_digit-decimal_digits (suc n) n t (omega arith)

-- What stands at a digit is a number without a sign.
magnitude_at-digit :
    (b : Bool) (s : String)
    → starts_digit s ≡ true
    → magnitude_at b s ≡ signed b (take_digits 0 s).0 (take_digits 0 s).1
unfolding magnitude_at
magnitude_at-digit b String.[] h = cc
magnitude_at-digit b (String.◌∷◌ c s) h = rw h refl

digit_code : ℕ → Bool
digit_code n = leb 48 n && leb n 57

no_digit : (n k : ℕ) → digit_code n ≡ true → digit_code k ≡ false → (n == k) ≡ false
no_digit n k h e = elim (Bool-cases (n == k)) [
  | inr g ↦ g
  | inl g ↦ absurd (true-false (sym h ∙ ap digit_code ((nat_beq_iff n k).0 g) ∙ e))
]
  where
    true-false : true ≡ false → ⊥
    true-false h = cc

no_space : (n : ℕ) → digit_code n ≡ true → (n == 32 || (leb 9 n && leb n 13)) ≡ false
unfolding digit_code
no_space n h = ground arith

int_at-digit :
    (s : String) (old : ℤ)
    → starts_digit s ≡ true
    → int_at s old ≡ signed false (take_digits 0 s).0 (take_digits 0 s).1
unfolding int_at digit_code
int_at-digit String.[] old h = cc
int_at-digit (String.◌∷◌ c s) old h =
    rw (no_digit (code c) 45 h refl, no_digit (code c) 43 h refl)
      (magnitude_at-digit false (String.◌∷◌ c s) h)

skip-digit : (s : String) → starts_digit s ≡ true → skip s ≡ s
unfolding skip digit_code
skip-digit String.[] h = cc
skip-digit (String.◌∷◌ c s) h = rw (no_space (code c) h) refl

-- Reading the text of a 32-bit number gives that number, and leaves what follows it.
pub read_int-to_string :
    (z old : ℤ) (t : String)
    → is_int z ≡ true
    → ends_number t ≡ true
    → read_int (input (to_string z ++ t)) old ≡ (z, input t)
unfolding read_int to_string
read_int-to_string (pos n) old t h k =
    ap (λ s. int_at s old) (skip-digit (decimal n ++ t) (starts_digit-decimal n t))
    ∙ int_at-digit (decimal n ++ t) old (starts_digit-decimal n t)
    ∙ ap (λ p. signed false p.0 p.1) (take_digits-decimal n t k)
    ∙ rw h refl
read_int-to_string (negsuc n) old t h k =
    ap (λ s. (read_int (input s) old))
      (append_assoc "-" (decimal (suc n)) t
        ∙ cons-append "-" "" _
        ∙ ap (String.◌∷◌ "-") (nil-append _))
    ∙ magnitude_at-digit true (decimal (suc n) ++ t) (starts_digit-decimal (suc n) t)
    ∙ ap (λ p. signed true p.0 p.1) (take_digits-decimal (suc n) t k)
    ∙ rw h refl

spaceless-decimal_digits :
    (f n : ℕ) (t : String) → spaceless t ≡ true → spaceless (decimal_digits f n t) ≡ true
unfolding decimal_digits
spaceless-decimal_digits zero n t h = h
spaceless-decimal_digits (suc f) n t h = elim (Bool-cases (ltb n 10)) [
  | inl e ↦ rw e (spaceless-digit n t (ltb-less n 10 e) h)
  | inr e ↦ rw e (
      spaceless-decimal_digits f (n / 10) (digit (n % 10) ++ t)
        (spaceless-digit (n % 10) t (omega arith) h))
]
  where
    spaceless-digit :
        (n : ℕ) (t : String) → n < 10 → spaceless t ≡ true → spaceless (digit n ++ t) ≡ true
    spaceless-digit n t h k =
        on_digits (λ n. spaceless (digit n ++ t) ≡ true) n h (front "0" refl) (front "1" refl)
          (front "2" refl) (front "3" refl) (front "4" refl) (front "5" refl) (front "6" refl)
          (front "7" refl) (front "8" refl) (front "9" refl)
      where
        front : (c : Char) → is_space c ≡ false → spaceless (String.◌∷◌ c "" ++ t) ≡ true
        front c e = rw (cons-append c "" t) (rw e (rw (nil-append t) k))

pub spaceless-to_string : (z : ℤ) → spaceless (to_string z) ≡ true
unfolding to_string decimal
spaceless-to_string (pos n) = spaceless-decimal_digits (suc n) n "" refl
spaceless-to_string (negsuc n) =
    rw (append-glue "-" (decimal (suc n))) (spaceless-decimal_digits (suc (suc n)) (suc n) "" refl)

-- The same behind a blank, in front of one.
pub read_int-next :
    (z old : ℤ) (t : String)
    → is_int z ≡ true
    → read_int (input (" " ++ (to_string z ++ (" " ++ t)))) old ≡ (z, input (" " ++ t))
unfolding read_int
read_int-next z old t h =
    ap (λ s. int_at s old) (ap skip (append-glue " " (to_string z ++ (" " ++ t))))
    ∙ read_int-to_string z old (" " ++ t) h (rw (append-glue " " t) refl)

-- The last number of a text.
pub read_int-last :
    (z old : ℤ) → is_int z ≡ true → read_int (input (" " ++ to_string z)) old ≡ (z, input "")
unfolding read_int
read_int-last z old h =
    ap (λ s. int_at s old)
      (ap skip (append-glue " " (to_string z) ∙ ap (glue " ") (sym (append-nil (to_string z)))))
    ∙ read_int-to_string z old "" h refl
