-- ===== src/Platform/Input/Words.antt =====
-- Reading words and lines back out of texts that were put together from them.
use Prim.Native.Char.{Char}
use Prim.Native.String.{◌++◌}
use text.Mathlib.TextLemmas.{cons-append, nil-append, append-nil, append_assoc}
use g_agent.Base.{
  both_true, not-false, sym, String, Bool, true, false, ◌&&◌, not, nat_key, ◌≡◌, refl, ap, ◌∙◌,
}
use g_agent.Platform.Input.{input, is_space, take_word, word_at, skip, read_word}

abbrev pub spaceless : String → Bool
spaceless String.[] = true
spaceless (String.◌∷◌ c s) = not (is_space c) && spaceless s

-- A text that `>>` reads whole.
abbrev pub is_one_word : String → Bool
is_one_word String.[] = false
is_one_word (String.◌∷◌ c s) = spaceless (String.◌∷◌ c s)

-- A text in front of which a word ends.
abbrev pub ends_word : String → Bool
ends_word String.[] = true
ends_word (String.◌∷◌ c s) = is_space c

take_word-append :
    (w t : String) → spaceless w ≡ true → ends_word t ≡ true → take_word (w ++ t) ≡ (w, t)
unfolding take_word
take_word-append String.[] String.[] h k = rw (nil-append "") refl
take_word-append String.[] (String.◌∷◌ c t) h k = rw (nil-append (String.◌∷◌ c t)) (rw k refl)
take_word-append (String.◌∷◌ c w) t h k =
    let (first, rest) = both_true (not (is_space c)) (spaceless w) h in
    rw (cons-append c w t) (
      rw (not-false (is_space c) first)
        (ap (λ p. (String.◌∷◌ c p.0, p.1)) (take_word-append w t rest k)))

word_at-start :
    (c : Char) (s old : String)
    → is_space c ≡ false
    → word_at (String.◌∷◌ c s) old ≡ (String.◌∷◌ c (take_word s).0, input (take_word s).1)
unfolding word_at take_word
word_at-start c s old h = rw h refl

pub read_word-append :
    (w t old : String)
    → is_one_word w ≡ true
    → ends_word t ≡ true
    → read_word (input (w ++ t)) old ≡ (w, input t)
unfolding read_word skip
read_word-append String.[] t old h k = cc
read_word-append (String.◌∷◌ c w) t old h k =
    let (first, rest) = both_true (not (is_space c)) (spaceless w) h in
    rw (cons-append c w t) (
      rw (not-false (is_space c) first) (
        word_at-start c (w ++ t) old (not-false (is_space c) first)
        ∙ ap (λ p. (String.◌∷◌ c p.0, input p.1)) (take_word-append w t rest k)))

pub read_word-blank : (t old : String) → read_word (input (" " ++ t)) old ≡ read_word (input t) old
unfolding read_word
read_word-blank t old = rw (cons-append " " "" t, nil-append t) refl

-- A word behind a blank.
pub read_word-next :
    (w t old : String)
    → is_one_word w ≡ true
    → ends_word t ≡ true
    → read_word (input (" " ++ (w ++ t))) old ≡ (w, input t)
read_word-next w t old h k = read_word-blank (w ++ t) old ∙ read_word-append w t old h k

pub read_word-end :
    (old : String) → read_word (input "") old ≡ (old, record { rest = ""; good = false })
unfolding read_word
read_word-end old = refl

pub ends_word-blank : (t : String) → ends_word (" " ++ t) ≡ true
ends_word-blank t = rw (cons-append " " "" t) refl

pub ends_word-newline : (t : String) → ends_word ("\n" ++ t) ≡ true
ends_word-newline t = rw (cons-append "\n" "" t) refl

-- The last word of a text.
pub read_word-last :
    (w old : String) → is_one_word w ≡ true → read_word (input (" " ++ w)) old ≡ (w, input "")
read_word-last w old h =
    ap (λ s. read_word (input (" " ++ s)) old) (sym (append-nil w)) ∙ read_word-next w "" old h refl

-- The first word of a command line.
pub read_word-command :
    (w t old : String)
    → is_one_word w ≡ true
    → read_word (input ((w ++ " ") ++ t)) old ≡ (w, input (" " ++ t))
read_word-command w t old h =
    ap (λ s. read_word (input s) old) (append_assoc w " " t)
    ∙ read_word-append w (" " ++ t) old h (ends_word-blank t)
