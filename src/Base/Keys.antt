-- ===== src/Base/Keys.antt =====
-- Types whose values are compared: the keys of a std::map.
use Prim.Native.Nat.{ℕ}
use Prim.Native.String.{String, compare}
use mathlib.Core.Path.{◌≡◌, refl}
use mathlib.Core.Logic.{◌↔◌}
use mathlib.Core.Bool.{Bool, true}
use text.Mathlib.Text.{◌==◌ as str_eq, is_lt}
use text.Mathlib.TextEquality.{eq_iff}
use g_agent.Base.Tests.{ltb, nat_beq, nat_beq_iff}
use g_agent.Base.Int.{ℤ, int_beq, int_ltb, int_beq_iff}

-- `beq` is ==, and `before` is the order by which std::map sorts its entries.
pub record Key {ℓ} (A : Type ℓ) : Type ℓ where
  pub beq : A → A → Bool
  pub before : A → A → Bool
  pub beq_iff : (a b : A) → (beq a b ≡ true) ↔ (a ≡ b)

infix 50 ◌==◌
abbrev pub ◌==◌ {ℓ} : {A : Type ℓ} ⦃k : Key A⦄ → A → A → Bool
◌==◌ ⦃k⦄ = k.beq

abbrev pub str_before : String → String → Bool
str_before s t = is_lt (compare s t)

instance abbrev pub nat_key : Key ℕ
nat_key = record { beq = nat_beq; before = ltb; beq_iff = nat_beq_iff }

instance abbrev pub string_key : Key String
string_key = record { beq = str_eq; before = str_before; beq_iff = eq_iff }

instance abbrev pub int_key : Key ℤ
int_key = record { beq = int_beq; before = int_ltb; beq_iff = int_beq_iff }

module _ {ℓ} {A : Type ℓ} ⦃k : Key A⦄ where
  pub ==_refl : (a : A) → (a == a) ≡ true
  ==_refl a = (k.beq_iff a a).1 refl
