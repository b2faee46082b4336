-- ===== src/Env/Client.antt =====
-- src/platform/EnvClient.cpp: the client of the environment's server, on a connection to `serve` of
-- src/env/Environnement.cpp.
use Prim.Native.Char.{Char, code}
use Prim.Native.String.{◌++◌}
use text.Mathlib.TextLemmas.{cons-append, nil-append, append_assoc}
use g_agent.Base.{
  ℕ, String, Bool, true, false, ◌&&◌, ◌||◌, Option, none, some, if◌then◌else◌, ◌==◌, nat_key,
  string_key, ◌≡◌, refl, sym, ap, ◌∙◌, Bool-cases, inl, inr, eq_iff, length,
}
use g_agent.Platform.Input.{decimal}
use g_agent.Platform.Clients.{Server, read_line}
use g_agent.Env.Nsap.{Environnement}
use g_agent.Env.Reports.{Reported}
use g_agent.Env.Json.{Floats, Links, agents_json, snaps_json, agents_answer, nsap_answer, answer}

-- The loop over `pop_back`.
unfoldable pub strip_end : String → String
strip_end String.[] = String.[]
strip_end (String.◌∷◌ c s) =
    let rest = strip_end s in
    if rest == "" && (code c == 10 || code c == 13) then String.[] else String.◌∷◌ c rest

abbrev whole_answer : {S : Type 0} → Option (String × S) → S → String × S
whole_answer none s = ("", s)
whole_answer (some (text, after)) s = (strip_end text, after)

module _ {S : Type 0} (server : Server S) where
  -- `request`: the whole answer, without the ends of line behind it.
  unfoldable pub request_env : String → S → String × S
  unfolding strip_end
  request_env cmd s = whole_answer (server (cmd ++ "\n") s) s

  unfoldable pub get_agents : S → String × S
  unfolding request_env
  get_agents s = request_env "GET_AGENTS" s

  unfoldable pub get_nsap : S → String × S
  unfolding request_env
  get_nsap s = request_env "GET_NSAP" s

-- A connection that the environment accepts. The environment stays as it is.
unfoldable pub serve_env : {F : Type 0} → Floats F → ℕ → ℕ → Links → Server (Environnement Reported)
serve_env floats width height l text e = some (answer floats width height l (read_line text).0 e, e)

is_full : String → Bool
is_full String.[] = false
is_full (String.◌∷◌ c s) = true

full_lem : (c : Char) (s : String) → (String.◌∷◌ c s == "") ≡ false
full_lem c s = elim (Bool-cases (String.◌∷◌ c s == "")) [
  | inr e ↦ e
  | inl e ↦ absurd (true-false (unfold is_full in ap is_full ((eq_iff (String.◌∷◌ c s) "").0 e)))
]
  where
    true-false : true ≡ false → ⊥
    true-false h = cc

not_empty : (s t : String) → (t == "") ≡ false → (s ++ t == "") ≡ false
not_empty String.[] t h = rw (nil-append t) h
not_empty (String.◌∷◌ c s) t h = rw (cons-append c s t) (full_lem c (s ++ t))

strip_end-last :
    (s t : String) → (strip_end t == "") ≡ false → strip_end (s ++ t) ≡ s ++ strip_end t
unfolding strip_end
strip_end-last String.[] t h = rw (nil-append t) (sym (nil-append (strip_end t)))
strip_end-last (String.◌∷◌ c s) t h = rw (cons-append c s t) (
    rw (strip_end-last s t h)
      (rw (not_empty s (strip_end t) h) (sym (cons-append c s (strip_end t)))))

-- The end of an answer is not stripped.
closed : (s : String) → strip_end ((s ++ "]}") ++ "\n") ≡ s ++ "]}"
closed s =
    ap strip_end (append_assoc s "]}" "\n")
    ∙ strip_end-last s ("]}" ++ "\n") (unfold strip_end in refl)
    ∙ ap (λ t. s ++ t) (unfold strip_end in refl)

module _ {F : Type 0} (floats : Floats F) (width height : ℕ) (l : Links)
    (e : Environnement Reported) where
  -- `getAgents` and `getNsap` return the objects that the environment makes of its agents and of its
  -- stack of snapshots, to their last character, and leave the environment as it is.
  pub get_agents-get_nsap :
      (get_agents (serve_env floats width height l) e
        ≡ (agents_answer floats width height l e.list_attr, e))
      × (get_nsap (serve_env floats width height l) e ≡ (nsap_answer floats e.nsap_index, e))
  unfolding get_agents get_nsap serve_env
  get_agents-get_nsap = (
    ap (λ t. (t, e)) (agents_line ∙ whole _ _ agents_end),
    ap (λ t. (t, e)) (nsap_line ∙ whole _ _ nsap_end),
  )
    where
      whole : (text s : String) → text ≡ s ++ "]}" → strip_end (text ++ "\n") ≡ text
      whole text s h = ap (λ t. strip_end (t ++ "\n")) h ∙ closed s ∙ sym h

      agents_line :
          strip_end (answer floats width height l (read_line "GET_AGENTS\n").0 e)
          ≡ strip_end (agents_answer floats width height l e.list_attr ++ "\n")
      agents_line = unfold answer read_line in refl

      nsap_line :
          strip_end (answer floats width height l (read_line "GET_NSAP\n").0 e)
          ≡ strip_end (nsap_answer floats e.nsap_index ++ "\n")
      nsap_line = unfold answer read_line in refl

      agents_end :
          agents_answer floats width height l e.list_attr
          ≡ ("{\"width\":"
              ++ decimal width
              ++ ",\"height\":"
              ++ decimal height
              ++ ",\"agents\":["
              ++ agents_json floats l true e.list_attr)
            ++ "]}"
      agents_end = unfold agents_answer in simp append_assoc

      nsap_end :
          nsap_answer floats e.nsap_index
          ≡ ("{\"count\":"
              ++ decimal (length e.nsap_index)
              ++ ",\"snaps\":["
              ++ snaps_json floats true e.nsap_index)
            ++ "]}"
      nsap_end = unfold nsap_answer in simp append_assoc
