-- ===== src/Core/Parallel/Apart.antt =====
-- Children of the parallel behaviour of Behaviour.cpp that have a memory of their own each.
use g_agent.Base.{
  ℕ, List, [], ◌∷◌, Bool, true, false, if◌then◌else◌, ◌≡◌, refl, arith, ◌==◌, nat_key, All, ◌∙◌,
  ==_refl,
}
use g_agent.Core.Behaviour.{Methods}
use g_agent.Core.Parallel.{turns, turn_of}

-- The memory of the objects, a cell for each pointer.
abbrev pub Cells : Type 0 → Type 0
Cells C = ℕ → C

unfoldable pub write : {C : Type 0} → ℕ → C → Cells C → Cells C
write p c w q = if p == q then c else w q

pub write_self : {C : Type 0} (p : ℕ) (c : C) (w : Cells C) → write p c w p ≡ c
unfolding write
write_self p c w = rw (==_refl p)

pub write_other :
    {C : Type 0} (p q : ℕ) (c : C) (w : Cells C) → (p == q) ≡ false → write p c w q ≡ w q
unfolding write
write_other p q c w h = rw h

-- A cell of one of two memories.
if-cell :
    {C : Type 0} (d : Bool) (v w : Cells C) (q : ℕ)
    → (if d then v else w) q ≡ (if d then v q else w q)
if-cell true v w q = refl
if-cell false v w q = refl

if_same : {C : Type 0} (d : Bool) (x : C) → (if d then x else x) ≡ x
if_same true x = refl
if_same false x = refl

module _ {C : Type 0} (own : ℕ → Methods C) where
  -- The methods of the object at `p` work on its own cell.
  abbrev pub in_cell : ℕ → Methods (Cells C)
  in_cell p = record {
    on_start = λ w. write p ((own p).on_start (w p)) w;
    action = λ w. write p ((own p).action (w p)) w;
    done = λ w. let (d, c) = (own p).done (w p) in (d, write p c w);
    on_end = λ w. write p ((own p).on_end (w p)) w;
    exit_value = λ w. (own p).exit_value (w p);
  }

  -- The pointers are different from `p`.
  abbrev pub Others : ℕ → List ℕ → Type 0
  Others p cs = All (λ c. (c == p) ≡ false) cs

  abbrev pub IsApart : List ℕ → Type 0
  IsApart [] = Unit
  IsApart (c ∷ cs) = Others c cs × IsApart cs

  -- Each child with its flag and its cell.
  abbrev pub view : List ℕ → List Bool → Cells C → List (Bool × C)
  view [] es w = []
  view (c ∷ cs) [] w = []
  view (c ∷ cs) (e ∷ es) w = (e, w c) ∷ view cs es w

  -- What a turn does to one child, left alone with its cell.
  -- The turn of a child alone: nothing once it has ended, else `action`, `done`, and `onEnd` if it is
  -- done.
  abbrev pub own_turn : ℕ → Bool × C → Bool × C
  own_turn c (true, x) = (true, x)
  own_turn c (false, x) =
      let (d, y) = (own c).done ((own c).action x) in (d, if d then (own c).on_end y else y)

  abbrev pub own_turns : List ℕ → List (Bool × C) → List (Bool × C)
  own_turns [] xs = xs
  own_turns (c ∷ cs) [] = []
  own_turns (c ∷ cs) (x ∷ xs) = own_turn c x ∷ own_turns cs xs

  -- A turn of the child at `c`: its own answer, its own cell, and no other cell.
  turn_in_cell :
      (c : ℕ) (w : Cells C)
      → ((turn_of (in_cell c) w).0 ≡ (turn_of (own c) (w c)).0)
        × ((turn_of (in_cell c) w).1 c ≡ (turn_of (own c) (w c)).1)
        × ((q : ℕ) → (c == q) ≡ false → (turn_of (in_cell c) w).1 q ≡ w q)
  turn_in_cell c w = (
    simp write_self,
    simp (if-cell, write_self),
    λ q h.
        let past : (x : C) (v : Cells C) → write c x v q ≡ v q = λ x v. write_other c q x v h in
        simp (if-cell, past, if_same),
  )

  pub view-agree :
      (cs : List ℕ) (es : List Bool) (v w : Cells C)
      → All (λ c. v c ≡ w c) cs
      → view cs es v ≡ view cs es w
  view-agree [] es v w h = refl
  view-agree (c ∷ cs) [] v w h = refl
  view-agree (c ∷ cs) (e ∷ es) v w h = cc (h.0, view-agree cs es v w h.1)

  -- The cells of the others after a turn at `c`.
  pub Others-same :
      (c : ℕ) (cs : List ℕ) (v w : Cells C)
      → ((q : ℕ) → (c == q) ≡ false → v q ≡ w q)
      → Others c cs
      → All (λ q. v q ≡ w q) cs
  Others-same c [] v w same h = tt
  Others-same c (q ∷ cs) v w same h =
      let apart : (c == q) ≡ false = ground arith in (same q apart, Others-same c cs v w same h.1)

  -- The loop touches no cell but those of its children.
  turns-elsewhere :
      (q : ℕ) (cs : List ℕ) (es : List Bool) (w : Cells C)
      → Others q cs
      → (turns in_cell cs es w).1 q ≡ w q
  unfolding turns
  turns-elsewhere q [] es w h = refl
  turns-elsewhere q (c ∷ cs) [] w h = refl
  turns-elsewhere q (c ∷ cs) (true ∷ es) w h = turns-elsewhere q cs es w h.1
  turns-elsewhere q (c ∷ cs) (false ∷ es) w h =
      turns-elsewhere q cs es (turn_of (in_cell c) w).1 h.1 ∙ (turn_in_cell c w).2 q h.0

  pub view-turns :
      (cs : List ℕ) (es : List Bool) (w : Cells C)
      → IsApart cs
      → view cs (turns in_cell cs es w).0 (turns in_cell cs es w).1 ≡ own_turns cs (view cs es w)
  unfolding turns
  view-turns [] es w h = refl
  view-turns (c ∷ cs) [] w h = refl
  view-turns (c ∷ cs) (true ∷ es) w h = cc (turns-elsewhere c cs es w h.0, view-turns cs es w h.1)
  view-turns (c ∷ cs) (false ∷ es) w h =
      let v = (turn_of (in_cell c) w).1 in
      let (answer, cell, elsewhere) = turn_in_cell c w in
      cc (
        answer,
        cell,
        turns-elsewhere c cs es v h.0,
        view-turns cs es v h.1,
        view-agree cs es v w (Others-same c cs v w elsewhere h.0),
      )
