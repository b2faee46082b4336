-- ===== src/Env/Nsap/Stack.antt =====
-- The snapshots of Environnement.cpp against their specification, a stack.
use g_agent.Base.{
  ℕ, ◌≤◌, ◌<◌, String, List, [], ◌∷◌, ◌++◌, Option, none, some, Map, insert, erase, place, lookup,
  nat_key, length, length-append, All, All-append, ℤ, pos, negsuc, ◌≡◌, refl, sym, ap, ◌∙◌, arith,
  subst,
}
use g_agent.Env.Nsap.{Environnement, last_entry, push_nsap, restore, pull_nsap, clear_nsap}

pub data Call (X : Type 0) : Type 0 where
  pushes : String → Call X
  pulls : Call X
  clears : Call X
  becomes : X → Call X

module _ {X : Type 0} where
  abbrev Below : ℕ → Map ℕ X → Type 0
  Below n m = All (λ e. e.0 < n) m

  -- The map has the stack's elements, the newest last, under keys that grow and are less than `n`.
  pub data Holds : List X → ℕ → Map ℕ X → Type 0 where
    holds_none : {n : ℕ} {m : Map ℕ X} → m ≡ [] → Holds [] n m
    holds_one :
        {x : X} {xs : List X} {k n : ℕ} {rest m : Map ℕ X}
        → Holds xs k rest
        → k < n
        → m ≡ rest ++ (k, x) ∷ []
        → Holds (x ∷ xs) n m

  Below-weaken : (k n : ℕ) (m : Map ℕ X) → k ≤ n → Below k m → Below n m
  Below-weaken k n [] h b = tt
  Below-weaken k n ((j, x) ∷ m) h b = (omega (arith, b.0, h), Below-weaken k n m h b.1)

  Holds-Below : {xs : List X} {n : ℕ} {m : Map ℕ X} → Holds xs n m → Below n m
  Holds-Below (holds_none {n} e) = subst (Below n) (sym e) tt
  Holds-Below (holds_one {x} {xs} {k} {n} {rest} h lt e) = subst (Below n) (sym e) (
      All-append (λ e. e.0 < n) rest ((k, x) ∷ [])
        (Below-weaken k n rest (omega (arith, lt)) (Holds-Below h)) (lt, tt))

  Below-lookup : (k : ℕ) (m : Map ℕ X) → Below k m → lookup k m ≡ none
  unfolding lookup
  Below-lookup k [] b = refl
  Below-lookup k ((j, x) ∷ m) b = ground (arith, Below-lookup k m)

  Below-place : (k : ℕ) (x : X) (m : Map ℕ X) → Below k m → place k x m ≡ m ++ (k, x) ∷ []
  unfolding place
  Below-place k x [] b = refl
  Below-place k x ((j, y) ∷ m) b = ground (arith, Below-place k x m)

  Below-insert : (k : ℕ) (x : X) (m : Map ℕ X) → Below k m → insert k x m ≡ m ++ (k, x) ∷ []
  unfolding insert
  Below-insert k x m b = rw (Below-lookup k m b) (Below-place k x m b)

  Below-erase : (k : ℕ) (x : X) (m : Map ℕ X) → Below k m → erase k (m ++ (k, x) ∷ []) ≡ m
  unfolding erase
  Below-erase k x [] b = ground arith
  Below-erase k x ((j, y) ∷ m) b = ground (arith, Below-erase k x m)

  last_entry-append : (m : Map ℕ X) (e : ℕ × X) → last_entry (m ++ e ∷ []) ≡ some e
  last_entry-append [] e = refl
  last_entry-append (f ∷ []) e = refl
  last_entry-append (f ∷ g ∷ m) e = last_entry-append (g ∷ m) e

  Holds-length : {xs : List X} {n : ℕ} {m : Map ℕ X} → Holds xs n m → length m ≡ length xs
  Holds-length (holds_none e) = ap length e
  Holds-length (holds_one {x} {xs} {k} {n} {rest} h lt e) =
      ap length e ∙ (length-append rest ((k, x) ∷ []) ∙ omega (arith, Holds-length h))

  Holds-weaken : {xs : List X} {k n : ℕ} {m : Map ℕ X} → k ≤ n → Holds xs k m → Holds xs n m
  Holds-weaken h (holds_none e) = holds_none e
  Holds-weaken h (holds_one s lt e) = holds_one s (omega (arith, lt, h)) e

  -- What a call returns, if its result is looked at, and the environment after it.
  nsap_step : Call X → Environnement X → Option ℤ × Environnement X
  nsap_step (pushes now) e = (none, (push_nsap now e).1)
  nsap_step pulls e = let (r, e') = pull_nsap e in (some r, e')
  nsap_step clears e = (none, clear_nsap e)
  nsap_step (becomes x) e = (none, record e { list_attr = x })

  -- After each call: its result, and the attributes.
  pub run_nsap : List (Call X) → Environnement X → List (Option ℤ × X)
  run_nsap [] e = []
  run_nsap (c ∷ cs) e =
      ((nsap_step c e).0, (nsap_step c e).1.list_attr) ∷ run_nsap cs (nsap_step c e).1

  stack_step : Call X → X × List X → Option ℤ × (X × List X)
  stack_step (pushes now) (x, xs) = (none, (x, x ∷ xs))
  stack_step pulls (x, []) = (some (negsuc 0), (x, []))
  stack_step pulls (x, y ∷ xs) = (some (pos (length xs)), (y, xs))
  stack_step clears (x, xs) = (none, (x, []))
  stack_step (becomes y) (x, xs) = (none, (y, xs))

  pub run_stack : List (Call X) → X × List X → List (Option ℤ × X)
  run_stack [] s = []
  run_stack (c ∷ cs) s =
      ((stack_step c s).0, (stack_step c s).1.0) ∷ run_stack cs (stack_step c s).1

  -- The environment and the stack after a call agree.
  record Agree (r : Option ℤ × Environnement X) (s : Option ℤ × (X × List X)) : Type 0 where
    results : r.0 ≡ s.0
    attributes : r.1.list_attr ≡ s.1.0
    snapshots : Holds s.1.1 r.1.nsap_seq r.1.list_snaps

  nsap_step-pulls :
      (e : Environnement X) (o : Option (ℕ × X))
      → last_entry e.list_snaps ≡ o
      → nsap_step pulls e ≡ (some (restore o e).0, (restore o e).1)
  unfolding nsap_step pull_nsap
  nsap_step-pulls e o h = ap (λ q. (some (restore q e).0, (restore q e).1)) h

  pull-Agree :
      (xs : List X) (e : Environnement X)
      → Holds xs e.nsap_seq e.list_snaps
      → Agree (nsap_step pulls e) (stack_step pulls (e.list_attr, xs))
  unfolding stack_step restore
  pull-Agree [] e (holds_none empty) =
      subst (λ r. Agree r (stack_step pulls (e.list_attr, [])))
        (sym (nsap_step-pulls e none (ap last_entry empty)))
        (record { results = refl; attributes = refl; snapshots = holds_none empty })
  pull-Agree (x ∷ xs) e (holds_one {k = k} {rest = rest} h lt whole) =
      let newest : last_entry e.list_snaps ≡ some (k, x) =
        ap last_entry whole ∙ last_entry-append rest (k, x) in
      let gone : erase k e.list_snaps ≡ rest =
        ap (erase k) whole ∙ Below-erase k x rest (Holds-Below h) in
      subst (λ r. Agree r (stack_step pulls (e.list_attr, x ∷ xs)))
        (sym (nsap_step-pulls e (some (k, x)) newest))
        (record {
          results = ap (λ m. some (pos (length m))) gone ∙ ap (λ n. some (pos n)) (Holds-length h);
          attributes = refl;
          snapshots = subst (Holds xs e.nsap_seq) (sym gone) (Holds-weaken (omega (arith, lt)) h);
        })

  step-Agree :
      (c : Call X) (xs : List X) (e : Environnement X)
      → Holds xs e.nsap_seq e.list_snaps
      → Agree (nsap_step c e) (stack_step c (e.list_attr, xs))
  unfolding nsap_step stack_step push_nsap clear_nsap
  step-Agree (pushes now) xs e h = record {
    results = refl;
    attributes = refl;
    snapshots =
        holds_one h (omega arith)
          (Below-insert e.nsap_seq e.list_attr e.list_snaps (Holds-Below h));
  }
  step-Agree pulls xs e h = pull-Agree xs e h
  step-Agree clears xs e h = record {
    results = refl;
    attributes = refl;
    snapshots = holds_none refl;
  }
  step-Agree (becomes x) xs e h = record { results = refl; attributes = refl; snapshots = h }

  -- For every sequence of calls and of changes of the attributes, from an environment whose snapshots
  -- stand for a stack: a pull restores the attributes of the newest push that was not pulled or
  -- cleared, and returns how many are left, or -1 without a change if there is none.
  pub run_nsap-run_stack :
      (cs : List (Call X)) (xs : List X) (e : Environnement X)
      → Holds xs e.nsap_seq e.list_snaps
      → run_nsap cs e ≡ run_stack cs (e.list_attr, xs)
  unfolding run_nsap run_stack
  run_nsap-run_stack [] xs e h = refl
  run_nsap-run_stack (c ∷ cs) xs e h =
      let a = step-Agree c xs e h in
      let s = stack_step c (e.list_attr, xs) in
      let rest = run_nsap-run_stack cs s.1.1 (nsap_step c e).1 a.snapshots in
      cc (rest, a.results, a.attributes)
