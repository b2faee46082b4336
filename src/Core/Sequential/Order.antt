-- ===== src/Core/Sequential/Order.antt =====
-- The order in which the sequential behaviour of Behaviour.cpp runs its children.
use g_agent.Base.{
  ℕ, suc, ◌<◌, List, [], ◌∷◌, ◌≡◌, refl, true, false, none, some, leb, length, get_elem?, drop,
  drop-cons, drop-nil, arith,
}
use g_agent.Core.Behaviour.{Methods, Loops, last, more, Runs, ran}
use g_agent.Core.Sequential.{
  Sequential, start_child, on_start, after_done, act_on, action, done, sequential_methods,
}

module _ {W : Type 0} (obj : ℕ → Methods W) where
  -- The children run to their ends in turn, from the world `w` to the world `u`.
  pub data RunsEach : List ℕ → W → W → Type 0 where
    none_left : {w : W} → RunsEach [] w w
    one_more :
        {c : ℕ} {cs : List ℕ} {w v u : W}
        → Runs (obj c) w v
        → RunsEach cs v u
        → RunsEach (c ∷ cs) w u

  abbrev SeqLoops : Sequential × W → Sequential × W → Type 0
  SeqLoops = Loops (sequential_methods obj)

  abbrev at : Sequential → ℕ → Sequential
  at s i = record s { current = i }

  -- A turn of the sequential loop in which the child goes on.
  child_goes_on :
      (s : Sequential) (i c : ℕ) {w v : W}
      → get_elem? s.children i ≡ some c
      → (obj c).done ((obj c).action w) ≡ (false, v)
      → i < length s.children
      → done obj (action obj (at s i, w)) ≡ (false, (at s i, v))
  unfolding action done
  child_goes_on s i c {w} {v} here e h =
      let test : leb (length s.children) i ≡ false = ground arith in
      rw (here, act_on) (rw (e, after_done) (rw test))

  -- The turn in which the child ends.
  child_ends :
      (s : Sequential) (i c : ℕ) {w v : W}
      → get_elem? s.children i ≡ some c
      → (obj c).done ((obj c).action w) ≡ (true, v)
      → done obj (action obj (at s i, w)) ≡ (
        leb (length s.children) (suc i),
        (at s (suc i), start_child obj (get_elem? s.children (suc i)) ((obj c).on_end v)),
      )
  unfolding action done
  child_ends s i c here e = rw (here, act_on) (rw (e, after_done))

  -- The loop of the child at `i` is the loop of the sequence up to the child's end, from which the
  -- sequence goes on as `rest` says.
  loop_of_child :
      (s : Sequential) (i c : ℕ) {w v : W} {e : Sequential × W}
      → get_elem? s.children i ≡ some c
      → i < length s.children
      → Loops (obj c) w v
      → ((u : W)
          → done obj (action obj (at s i, u)) ≡ (
            leb (length s.children) (suc i),
            (at s (suc i), start_child obj (get_elem? s.children (suc i)) ((obj c).on_end v)),
          )
          → SeqLoops (at s i, u) e)
      → SeqLoops (at s i, w) e
  loop_of_child s i c {w} here h (last t) rest = rest w (child_ends s i c here t)
  loop_of_child s i c here h (more t l) rest =
      more (child_goes_on s i c here t h) (loop_of_child s i c here h l rest)

  -- From the start of the child at `i` the loop runs that child and the later ones to their ends.
  children_in_turn :
      (cs : List ℕ) (s : Sequential) (i c : ℕ) {w v u : W}
      → drop i s.children ≡ c ∷ cs
      → Loops (obj c) w v
      → RunsEach cs ((obj c).on_end v) u
      → SeqLoops (at s i, w) (at s (length s.children), u)
  children_in_turn [] s i c e l none_left =
      let (here, behind, inside) = drop-cons s.children [] i c e in
      let (over, short) = drop-nil s.children (suc i) behind in
      let test : leb (length s.children) (suc i) ≡ true = ground arith in
      let full : suc i ≡ length s.children = omega arith in
      loop_of_child s i c here inside l λ u t. last (rw (← full) (rw (test, over) at t))
  children_in_turn (d ∷ cs) s i c e l (one_more (ran k) r) =
      let (here, behind, inside) = drop-cons s.children (d ∷ cs) i c e in
      let (next, later, room) = drop-cons s.children cs (suc i) d behind in
      let test : leb (length s.children) (suc i) ≡ false = ground arith in
      loop_of_child s i c here inside l
        λ u t. more (rw (test, next) at t) (children_in_turn cs s (suc i) d behind k r)

  nothing_to_do :
      (s : Sequential) {w : W}
      → s.children ≡ []
      → done obj (action obj (at s 0, w)) ≡ (true, (at s (length s.children), w))
  unfolding action done
  nothing_to_do s e =
      let here : get_elem? s.children 0 ≡ none = rw e in
      let size : length s.children ≡ 0 = rw e in rw (here, act_on) (rw size)

  start_in_turn :
      (cs : List ℕ) (s : Sequential) {w u : W}
      → s.children ≡ cs
      → RunsEach cs w u
      → SeqLoops (on_start obj (s, w)) (at s (length s.children), u)
  unfolding on_start
  start_in_turn [] s {w} e none_left =
      let here : get_elem? s.children 0 ≡ none = rw e in rw here (last (nothing_to_do s e))
  start_in_turn (c ∷ cs) s {w} e (one_more (ran l) r) =
      let here : get_elem? s.children 0 ≡ some c = rw e in rw here (children_in_turn cs s 0 c e l r)

  -- If the children of a sequential behaviour, each run as a thread of its own and one after the
  -- other in the order of the list, lead from `w` to `u`, then the thread of the sequential
  -- behaviour leads from `w` to `u` too, and it has passed all its children.
  pub Runs-sequential :
      (s : Sequential) {w u : W}
      → RunsEach s.children w u
      → Runs (sequential_methods obj) (s, w) (record s { current = length s.children }, u)
  Runs-sequential s r = ran (start_in_turn s.children s refl r)
