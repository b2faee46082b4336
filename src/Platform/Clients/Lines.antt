-- ===== src/Platform/Clients/Lines.antt =====
-- Lines of the clients' texts, read back.
use Prim.Native.Char.{Char, code}
use Prim.Native.String.{◌++◌}
use text.Mathlib.TextLemmas.{cons-append, nil-append}
use g_agent.Base.{
  some, String, Bool, true, false, ◌&&◌, ◌||◌, leb, not, ◌==◌, nat_key, nat_beq_iff, both_true,
  not-false, append-glue, ◌≡◌, refl, sym, ap, ◌∙◌, Bool-cases, inl, inr, ℤ, ℕ,
}
use g_agent.Platform.Input.{is_space, to_string}
use g_agent.Platform.Input.Words.{spaceless, is_one_word}
use g_agent.Platform.Input.Numbers.{spaceless-to_string}
use g_agent.Platform.Clients.{Server, read_line, is_ok, behind_ok, request, first_line}

abbrev pub has_no_break : String → Bool
has_no_break String.[] = true
has_no_break (String.◌∷◌ c s) = not (code c == 10) && has_no_break s

pub record OneLine (s : String) : Type 0 where
  pub no_break : has_no_break s ≡ true

pub OneLine-append : {s t : String} → OneLine s → OneLine t → OneLine (s ++ t)
OneLine-append {s} {t} h k = record { no_break = go s t h.no_break k.no_break }
  where
    go :
        (s t : String)
        → has_no_break s ≡ true
        → has_no_break t ≡ true
        → has_no_break (s ++ t) ≡ true
    go String.[] t h k = rw (nil-append t) k
    go (String.◌∷◌ c s) t h k =
        let (first, rest) = both_true (not (code c == 10)) (has_no_break s) h in
        rw (cons-append c s t) (rw first (go s t rest k))

no_space : (c : Char) → not (is_space c) ≡ true → not (code c == 10) ≡ true
no_space c h = elim (Bool-cases (code c == 10)) [
  | inr e ↦ rw e refl
  | inl e ↦ absurd (false-true (sym (ap space_code ((nat_beq_iff (code c) 10).0 e)) ∙ h))
]
  where
    space_code : ℕ → Bool
    space_code n = not (n == 32 || (leb 9 n && leb n 13))

    false-true : false ≡ true → ⊥
    false-true h = cc

pub spaceless-OneLine : (s : String) → spaceless s ≡ true → OneLine s
spaceless-OneLine s h = record { no_break = go s h }
  where
    go : (s : String) → spaceless s ≡ true → has_no_break s ≡ true
    go String.[] h = refl
    go (String.◌∷◌ c s) h =
        let (first, rest) = both_true (not (is_space c)) (spaceless s) h in
        rw (no_space c first) (go s rest)

pub word-OneLine : (s : String) → is_one_word s ≡ true → OneLine s
word-OneLine String.[] h = cc
word-OneLine (String.◌∷◌ c s) h = spaceless-OneLine (String.◌∷◌ c s) h

pub to_string-OneLine : (z : ℤ) → OneLine (to_string z)
to_string-OneLine z = spaceless-OneLine (to_string z) (spaceless-to_string z)

read_line-front : (s t : String) → has_no_break s ≡ true → read_line (s ++ ("\n" ++ t)) ≡ (s, t)
unfolding read_line
read_line-front String.[] t h = ap read_line (nil-append ("\n" ++ t) ∙ append-glue "\n" t) ∙ refl
read_line-front (String.◌∷◌ c s) t h =
    let (first, rest) = both_true (not (code c == 10)) (has_no_break s) h in
    rw (cons-append c s ("\n" ++ t)) (
      rw (not-false (code c == 10) first)
        (ap (λ p. (String.◌∷◌ c p.0, p.1)) (read_line-front s t rest)))

-- The front of a text up to the end of its first line.
pub read_line-append : (s t : String) → OneLine s → read_line (s ++ ("\n" ++ t)) ≡ (s, t)
read_line-append s t h = read_line-front s t h.no_break

-- A command is answered with the first line of what the server writes.
pub request-line :
    {S : Type 0} (server : Server S) (cmd line text : String) (s after : S)
    → server (cmd ++ "\n") s ≡ some (line ++ ("\n" ++ text), after)
    → OneLine line
    → request server cmd s ≡ (line, after)
unfolding request
request-line server cmd line text s after e h =
    ap (λ o. first_line o s) e ∙ ap (λ p. (p.0, after)) (read_line-append line text h)

pub is_ok-append : (s : String) → is_ok ("OK " ++ s) ≡ true
unfolding is_ok
is_ok-append s = rw (append-glue "OK " s) refl

pub behind_ok-append : (s : String) → behind_ok ("OK " ++ s) ≡ some s
unfolding behind_ok
behind_ok-append s = rw (append-glue "OK " s) refl
