-- ===== src/Base/Texts.antt =====
-- Native texts: `++` computes at literals only, and these lemmas open it elsewhere. Conjunctions.
use Prim.Native.String.{String, ◌++◌}
use text.Mathlib.TextLemmas.{cons-append, nil-append}
use mathlib.Core.Path.{◌≡◌, refl, sym, ap, ◌∙◌}
use mathlib.Core.Logic.{inl, inr}
use text.Mathlib.TextEquality.{eq_iff}
use g_agent.Base.Tests.{if◌then◌else◌, Bool-cases}
use g_agent.Base.Keys.{◌==◌, string_key}
use mathlib.Core.Bool.{Bool, true, false, not, ◌&&◌}

-- `++` by clauses.
abbrev pub glue : String → String → String
glue String.[] t = t
glue (String.◌∷◌ c s) t = String.◌∷◌ c (glue s t)

pub append-glue : (s t : String) → s ++ t ≡ glue s t
append-glue String.[] t = nil-append t
append-glue (String.◌∷◌ c s) t = cons-append c s t ∙ ap (String.◌∷◌ c) (append-glue s t)

pub both_true : (a b : Bool) → (a && b) ≡ true → (a ≡ true) × (b ≡ true)
both_true true b h = (refl, h)
both_true false b h = cc

pub not-false : (a : Bool) → not a ≡ true → a ≡ false
not-false true h = cc
not-false false h = refl

-- The empty text or the text is the text.
pub same_text : (t : String) → (if t == "" then "" else t) ≡ t
same_text t = elim (Bool-cases (t == "")) [
  | inl e ↦ rw e (sym ((eq_iff t "").0 e))
  | inr e ↦ rw e refl
]
