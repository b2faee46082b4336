-- ===== src/Core/Migration/Journey.antt =====
-- An agent that leaves a machine and arrives on another.
use Prim.Native.Char.{Char, code}
use Prim.Native.String.{◌++◌}
use text.Mathlib.TextLemmas.{cons-append, nil-append, append_assoc}
use g_agent.Base.{
  String, [], Bool, true, false, ◌&&◌, ◌||◌, not, leb, Option, none, some, ◌==◌, nat_key,
  string_key, nat_beq_iff, ℕ, lookup, IsDistinct, both_true, ◌≡◌, refl, sym, ap, ◌∙◌, Bool-cases,
  inl, inr,
}
use g_agent.Env.Attributs.{Attributs, attributs_text}
use g_agent.Env.Attributs.RoundTrip.{IsPlain}
use g_agent.Platform.Input.{input, is_space, read_word}
use g_agent.Platform.Input.Words.{
  spaceless, is_one_word, read_word-command, read_word-next, read_word-last, ends_word-blank,
}
use g_agent.Platform.Clients.Lines.{OneLine, OneLine-append, word-OneLine, read_line-append}
use g_agent.Platform.Clients.Df.Session.{word-full}
use g_agent.Core.Migration.{
  attributs_word, arrive_line, strip_cr, restore, Arrival, refused, arrived, accept, arrive,
  handle_migration,
}
use g_agent.Core.Migration.Attributes.{
  IsSpaceless, spaceless-attributs_word, restore-attributs_word,
}

word-attributs_word : (m : Attributs) → IsSpaceless m → is_one_word (attributs_word m) ≡ true
word-attributs_word m h = full (attributs_word m) (spaceless-attributs_word m h) (not_empty m)
  where
    full : (s : String) → spaceless s ≡ true → (s == "") ≡ false → is_one_word s ≡ true
    full String.[] h k = cc
    full (String.◌∷◌ c s) h k = h

    not_empty : (m : Attributs) → (attributs_word m == "") ≡ false
    not_empty m =
        unfold attributs_word in
        elim (Bool-cases (attributs_text m == "")) [ inl e ↦ rw e refl | inr e ↦ rw e (rw e refl) ]

no_cr : (c : Char) → not (is_space c) ≡ true → (code c == 13) ≡ false
no_cr c h = elim (Bool-cases (code c == 13)) [
  | inr e ↦ e
  | inl e ↦ absurd (false-true (sym (ap space_code ((nat_beq_iff (code c) 13).0 e)) ∙ h))
]
  where
    space_code : ℕ → Bool
    space_code n = not (n == 32 || (leb 9 n && leb n 13))

    false-true : false ≡ true → ⊥
    false-true h = cc

-- A line that ends with a word keeps it.
strip_cr-word :
    (c : Char) (w : String)
    → spaceless (String.◌∷◌ c w) ≡ true
    → strip_cr (String.◌∷◌ c w) ≡ String.◌∷◌ c w
unfolding strip_cr
strip_cr-word c String.[] h = rw (no_cr c (both_true (not (is_space c)) true h).0) refl
strip_cr-word c (String.◌∷◌ d w) h =
    ap (String.◌∷◌ c)
      (strip_cr-word d w (both_true (not (is_space c)) (spaceless (String.◌∷◌ d w)) h).1)

strip_cr-front :
    (s : String) (c : Char) (w : String)
    → spaceless (String.◌∷◌ c w) ≡ true
    → strip_cr (s ++ String.◌∷◌ c w) ≡ s ++ String.◌∷◌ c w
unfolding strip_cr
strip_cr-front String.[] c w h =
    ap strip_cr (nil-append (String.◌∷◌ c w))
    ∙ strip_cr-word c w h
    ∙ sym (nil-append (String.◌∷◌ c w))
strip_cr-front (String.◌∷◌ d String.[]) c w h =
    ap strip_cr
      (cons-append d "" (String.◌∷◌ c w) ∙ ap (String.◌∷◌ d) (nil-append (String.◌∷◌ c w)))
    ∙ ap (String.◌∷◌ d) (strip_cr-word c w h)
    ∙ sym (cons-append d "" (String.◌∷◌ c w) ∙ ap (String.◌∷◌ d) (nil-append (String.◌∷◌ c w)))
strip_cr-front (String.◌∷◌ d (String.◌∷◌ e s)) c w h =
    ap strip_cr (
      cons-append d (String.◌∷◌ e s) (String.◌∷◌ c w)
      ∙ ap (String.◌∷◌ d) (cons-append e s (String.◌∷◌ c w)))
    ∙ ap (λ t. String.◌∷◌ d (strip_cr t)) (sym (cons-append e s (String.◌∷◌ c w)))
    ∙ ap (String.◌∷◌ d) (strip_cr-front (String.◌∷◌ e s) c w h)
    ∙ sym (cons-append d (String.◌∷◌ e s) (String.◌∷◌ c w))

strip_cr-append : (s w : String) → is_one_word w ≡ true → strip_cr (s ++ w) ≡ s ++ w
strip_cr-append s String.[] h = cc
strip_cr-append s (String.◌∷◌ c w) h = strip_cr-front s c w h

arrive_line-OneLine :
    (type name : String) (m : Attributs)
    → is_one_word type ≡ true
    → is_one_word name ≡ true
    → IsSpaceless m
    → OneLine (arrive_line type name m)
unfolding arrive_line
arrive_line-OneLine type name m t n h =
    let blank : OneLine " " = record { no_break = refl } in
    OneLine-append (record { no_break = refl })
      (OneLine-append (word-OneLine type t) (
        OneLine-append blank (
          OneLine-append (word-OneLine name n)
            (OneLine-append blank (word-OneLine (attributs_word m) (word-attributs_word m h))))))

strip_cr-arrive_line :
    (type name : String) (m : Attributs)
    → IsSpaceless m
    → strip_cr (arrive_line type name m) ≡ arrive_line type name m
unfolding arrive_line
strip_cr-arrive_line type name m h =
    let w = attributs_word m in
    let front = "ARRIVE " ++ type ++ " " ++ name ++ " " in
    let same : "ARRIVE " ++ type ++ " " ++ name ++ " " ++ w ≡ front ++ w = simp append_assoc in
    ap strip_cr same ∙ strip_cr-append front w (word-attributs_word m h) ∙ sym same

handle_migration-arrive_line :
    (create : String → Option Attributs) (type name : String) (m : Attributs)
    → is_one_word type ≡ true
    → is_one_word name ≡ true
    → IsSpaceless m
    → create type ≡ some []
    → handle_migration create (arrive_line type name m ++ "\n")
      ≡ arrived type name (restore (attributs_word m) [])
unfolding handle_migration arrive accept
handle_migration-arrive_line create type name m t n h e =
    let w = attributs_word m in
    let t2 = name ++ " " ++ w in
    let t1 = type ++ " " ++ t2 in
    let line : read_word (input (arrive_line type name m)) "" ≡ ("ARRIVE", input (" " ++ t1)) =
      unfold arrive_line in read_word-command "ARRIVE" t1 "" refl in
    rw (read_line-append (arrive_line type name m) "" (arrive_line-OneLine type name m t n h)) (
      rw (strip_cr-arrive_line type name m h) (
        rw line (
          rw (read_word-next type (" " ++ t2) "" t (ends_word-blank t2)) (
            rw (read_word-next name (" " ++ w) "" n (ends_word-blank w)) (
              rw (read_word-last w "" (word-attributs_word m h))
                (rw (word-full type t, word-full name n) (ap (accept create type name w) e)))))))

-- What there is to see of an arrival: the type, the name and the value under a key.
abbrev pub seen : String → Arrival → Option (String × String × Option String)
seen k (refused reply) = none
seen k (arrived type name a) = some (type, name, lookup k a)

-- An agent that migrates arrives with its type, its name and the value of every attribute, on a
-- machine where agents of its type are created without attributes. The type and the name are words;
-- the keys are distinct and without `:`, and neither the keys nor the values have `;` or white space.
pub handle_migration-seen :
    (create : String → Option Attributs) (type name : String) (m : Attributs) (k : String)
    → is_one_word type ≡ true
    → is_one_word name ≡ true
    → IsSpaceless m
    → IsPlain m
    → IsDistinct m
    → create type ≡ some []
    → seen k (handle_migration create (arrive_line type name m ++ "\n"))
      ≡ some (type, name, lookup k m)
handle_migration-seen create type name m k t n h p d e =
    ap (seen k) (handle_migration-arrive_line create type name m t n h e)
    ∙ ap (λ o. some (type, name, o)) (restore-attributs_word m k p d)
