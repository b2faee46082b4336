-- ===== src/Base/Maps.antt =====
-- std::map: the entries in the order of their keys.
use Prim.Native.Nat.{◌≤◌}
use mathlib.Core.Path.{◌≡◌, refl}
use mathlib.Core.Bool.{Bool, true, false}
use mathlib.Core.Logic.{inl, inr}
use mathlib.Core.Option.{Option, none, some}
use mathlib.Core.List.{List, [], ◌∷◌}
use native.Mathlib.Omega.{arith}
use g_agent.Base.Tests.{if◌then◌else◌, is_some, Bool-cases}
use g_agent.Base.Lists.{length, All}
use g_agent.Base.Keys.{Key, ◌==◌, ==_refl}

abbrev pub Map {ℓ κ} : Type ℓ → Type κ → Type (ℓ ⊔ κ)
Map K V = List (K × V)

-- The value that is found, unless it passes the test.
abbrev pub unless {κ} : {V : Type κ} → (V → Bool) → Option V → Option V
unless p none = none
unless p (some v) = if p v then none else some v

module _ {ℓ κ} {K : Type ℓ} {V : Type κ} ⦃k : Key K⦄ where
  -- m.find(a)
  unfoldable pub lookup : K → Map K V → Option V
  lookup a [] = none
  lookup a ((b, v) ∷ m) = if b == a then some v else lookup a m

  -- m.count(a) != 0
  abbrev pub contains : K → Map K V → Bool
  contains a m = is_some (lookup a m)

  unfoldable pub assign : K → V → Map K V → Map K V
  assign a v [] = []
  assign a v ((b, w) ∷ m) = if b == a then (a, v) ∷ m else (b, w) ∷ assign a v m

  unfoldable pub place : K → V → Map K V → Map K V
  place a v [] = (a, v) ∷ []
  place a v ((b, w) ∷ m) = if k.before a b then (a, v) ∷ (b, w) ∷ m else (b, w) ∷ place a v m

  -- m[a] = v: an entry with the key is assigned, else there is a new one at its place in the order.
  unfoldable pub insert : K → V → Map K V → Map K V
  unfolding assign place lookup
  insert a v m = if contains a m then assign a v m else place a v m

  -- m.erase(a)
  unfoldable pub erase : K → Map K V → Map K V
  erase a [] = []
  erase a ((b, w) ∷ m) = if b == a then erase a m else (b, w) ∷ erase a m

  -- The loop that erases the entries that pass a test.
  unfoldable pub erase_if : (V → Bool) → Map K V → Map K V
  erase_if p [] = []
  erase_if p ((b, w) ∷ m) = if p w then erase_if p m else (b, w) ∷ erase_if p m

  pub lookup-nil : (a : K) → lookup a (let m : Map K V = [] in m) ≡ none
  unfolding lookup
  lookup-nil a = refl

  lookup-assign :
      (a c : K) (v : V) (m : Map K V)
      → contains a m ≡ true
      → lookup c (assign a v m) ≡ (if a == c then some v else lookup c m)
  unfolding lookup assign
  lookup-assign a c v [] h = cc
  lookup-assign a c v ((b, w) ∷ m) h =
      ground (arith, k.beq_iff a c, k.beq_iff b a, k.beq_iff b c, lookup-assign a c v m)

  lookup-place :
      (a c : K) (v : V) (m : Map K V)
      → contains a m ≡ false
      → lookup c (place a v m) ≡ (if a == c then some v else lookup c m)
  unfolding lookup place
  lookup-place a c v [] h = refl
  lookup-place a c v ((b, w) ∷ m) h =
      ground (arith, k.beq_iff a c, k.beq_iff b a, k.beq_iff b c, lookup-place a c v m)

  pub lookup-insert :
      (a c : K) (v : V) (m : Map K V)
      → lookup c (insert a v m) ≡ (if a == c then some v else lookup c m)
  unfolding insert
  lookup-insert a c v m = elim (Bool-cases (contains a m)) [
    | inl e ↦ rw e (lookup-assign a c v m e)
    | inr e ↦ rw e (lookup-place a c v m e)
  ]

  pub lookup-insert_self : (a : K) (v : V) (m : Map K V) → lookup a (insert a v m) ≡ some v
  lookup-insert_self a v m = rw (lookup-insert a a v m, ==_refl a)

  pub lookup-erase :
      (a c : K) (m : Map K V) → lookup c (erase a m) ≡ (if a == c then none else lookup c m)
  unfolding lookup erase
  lookup-erase a c [] = ground arith
  lookup-erase a c ((b, w) ∷ m) =
      ground (arith, k.beq_iff a c, k.beq_iff b a, k.beq_iff b c, lookup-erase a c m)

  pub length-erase-le : (a : K) (m : Map K V) → length (erase a m) ≤ length m
  unfolding erase
  length-erase-le a [] = omega arith
  length-erase-le a ((b, w) ∷ m) = ground (arith, length-erase-le a m)

  -- Keys are distinct: no entry after another has its key.
  abbrev pub Fresh : K → Map K V → Type 0
  Fresh a m = All (λ e. (e.0 == a) ≡ false) m

  abbrev pub IsDistinct : Map K V → Type 0
  IsDistinct [] = Unit
  IsDistinct ((b, w) ∷ m) = Fresh b m × IsDistinct m

  pub Fresh-lookup : (a : K) (m : Map K V) → Fresh a m → lookup a m ≡ none
  unfolding lookup
  Fresh-lookup a [] h = refl
  Fresh-lookup a ((b, w) ∷ m) h = rw (h.0) (Fresh-lookup a m h.1)

  Fresh-assign : (a b : K) (v : V) (m : Map K V) → Fresh b m → Fresh b (assign a v m)
  unfolding assign
  Fresh-assign a b v [] h = tt
  Fresh-assign a b v ((c, w) ∷ m) h =
      ground (arith, k.beq_iff c a, k.beq_iff c b, k.beq_iff a b, Fresh-assign a b v m)

  Fresh-place :
      (a b : K) (v : V) (m : Map K V) → (a == b) ≡ false → Fresh b m → Fresh b (place a v m)
  unfolding place
  Fresh-place a b v [] ne h = (ne, tt)
  Fresh-place a b v ((c, w) ∷ m) ne h = ground (arith, Fresh-place a b v m)

  missing-Fresh : (a : K) (m : Map K V) → contains a m ≡ false → Fresh a m
  unfolding lookup
  missing-Fresh a [] h = tt
  missing-Fresh a ((b, w) ∷ m) h = ground (arith, missing-Fresh a m)

  IsDistinct-assign : (a : K) (v : V) (m : Map K V) → IsDistinct m → IsDistinct (assign a v m)
  unfolding assign
  IsDistinct-assign a v [] h = tt
  IsDistinct-assign a v ((c, w) ∷ m) h =
      ground (arith, k.beq_iff c a, Fresh-assign a c v m, IsDistinct-assign a v m)

  IsDistinct-place :
      (a : K) (v : V) (m : Map K V) → Fresh a m → IsDistinct m → IsDistinct (place a v m)
  unfolding place
  IsDistinct-place a v [] fresh h = (tt, tt)
  IsDistinct-place a v ((c, w) ∷ m) fresh h =
      ground (arith, k.beq_iff c a, k.beq_iff a c, Fresh-place a c v m, IsDistinct-place a v m)

  pub IsDistinct-insert : (a : K) (v : V) (m : Map K V) → IsDistinct m → IsDistinct (insert a v m)
  unfolding insert
  IsDistinct-insert a v m h = elim (Bool-cases (contains a m)) [
    | inl e ↦ rw e (IsDistinct-assign a v m h)
    | inr e ↦ rw e (IsDistinct-place a v m (missing-Fresh a m e) h)
  ]

  Fresh-erase : (a b : K) (m : Map K V) → Fresh b m → Fresh b (erase a m)
  unfolding erase
  Fresh-erase a b [] h = tt
  Fresh-erase a b ((c, w) ∷ m) h = ground (arith, Fresh-erase a b m)

  pub IsDistinct-erase : (a : K) (m : Map K V) → IsDistinct m → IsDistinct (erase a m)
  unfolding erase
  IsDistinct-erase a [] h = tt
  IsDistinct-erase a ((c, w) ∷ m) h = ground (arith, Fresh-erase a c m, IsDistinct-erase a m)

  Fresh-erase_if : (p : V → Bool) (b : K) (m : Map K V) → Fresh b m → Fresh b (erase_if p m)
  unfolding erase_if
  Fresh-erase_if p b [] h = tt
  Fresh-erase_if p b ((c, w) ∷ m) h = ground (arith, Fresh-erase_if p b m)

  pub IsDistinct-erase_if : (p : V → Bool) (m : Map K V) → IsDistinct m → IsDistinct (erase_if p m)
  unfolding erase_if
  IsDistinct-erase_if p [] h = tt
  IsDistinct-erase_if p ((c, w) ∷ m) h =
      ground (arith, Fresh-erase_if p c m, IsDistinct-erase_if p m)

  pub lookup-erase_if :
      (p : V → Bool) (a : K) (m : Map K V)
      → IsDistinct m
      → lookup a (erase_if p m) ≡ unless p (lookup a m)
  unfolding erase_if lookup
  lookup-erase_if p a [] h = refl
  lookup-erase_if p a ((c, w) ∷ m) h =
      ground (arith, k.beq_iff c a, Fresh-lookup c m, Fresh-lookup a m, lookup-erase_if p a m)
