-- ===== src/Core/Parallel/Done.antt =====
-- What a parallel behaviour of Behaviour.cpp makes of its children, round by round.
use g_agent.Base.{
  ◌≤◌, ltb, ℕ, zero, suc, List, [], ◌∷◌, map, Bool, true, false, ◌≡◌, refl, arith, ◌==◌, nat_key,
  All, length, replicate, length-replicate, is_empty, nat_beq_iff, ap, sym, ◌∙◌,
}
use g_agent.Core.Behaviour.{Methods}
use g_agent.Core.Parallel.{
  all, any, WhenDone, Parallel, turns, turn_of, action, on_start, done, start_all, test_ended,
}
use g_agent.Core.Parallel.Apart.{
  Cells, write, in_cell, Others, IsApart, view, own_turn, own_turns, view-turns, write_self,
  write_other, Others-same,
}

-- `n` calls of `action` in a row.
unfoldable pub rounds : {W : Type 0} → (ℕ → Methods W) → ℕ → Parallel × W → Parallel × W
rounds obj zero x = x
rounds obj (suc n) x = action obj (rounds obj n x)

length-turns :
    {W : Type 0} (obj : ℕ → Methods W) (cs : List ℕ) (es : List Bool) (w : W)
    → length (turns obj cs es w).0 ≡ length es
unfolding turns
length-turns obj [] es w = refl
length-turns obj (c ∷ cs) [] w = refl
length-turns obj (c ∷ cs) (true ∷ es) w = ap suc (length-turns obj cs es w)
length-turns obj (c ∷ cs) (false ∷ es) w = ap suc (length-turns obj cs es (turn_of (obj c) w).1)

-- With a flag for each child, nothing is resized.
action_lem :
    {W : Type 0} (obj : ℕ → Methods W) (x : Parallel × W)
    → length x.0.ended ≡ length x.0.children
    → action obj x ≡ (
      record (x.0) { ended = (turns obj x.0.children x.0.ended x.1).0 },
      (turns obj x.0.children x.0.ended x.1).1,
    )
unfolding action
action_lem obj x h =
    let test : (length x.0.ended == length x.0.children) ≡ true =
      (nat_beq_iff (length x.0.ended) (length x.0.children)).1 h in
    rw test

record IsRunning (p q : Parallel) : Type 0 where
  same_children : q.children ≡ p.children
  same_when : q.when_done ≡ p.when_done
  full : length q.ended ≡ length q.children

-- The test on the count of the children that have ended, of `n`.
abbrev pub is_enough : WhenDone → ℕ → ℕ → Bool
is_enough all k n = k == n
is_enough any k n = ltb 0 k

-- The count of the flags that are set.
abbrev pub count_set : List Bool → ℕ
count_set [] = 0
count_set (true ∷ es) = suc (count_set es)
count_set (false ∷ es) = count_set es

count_set_le : (es : List Bool) → count_set es ≤ length es
count_set_le [] = omega arith
count_set_le (true ∷ es) = omega (arith, count_set_le es)
count_set_le (false ∷ es) = omega (arith, count_set_le es)

test_ended-is_enough :
    (q : WhenDone) (es : List Bool) → test_ended q es ≡ is_enough q (count_set es) (length es)
test_ended-is_enough all [] = refl
test_ended-is_enough all (true ∷ es) = ground (arith, test_ended-is_enough all es)
test_ended-is_enough all (false ∷ es) = ground (arith, count_set_le es)
test_ended-is_enough any [] = refl
test_ended-is_enough any (true ∷ es) = ground arith
test_ended-is_enough any (false ∷ es) = test_ended-is_enough any es

module _ {C : Type 0} (own : ℕ → Methods C) where
  -- A child alone: started, and then a turn for each round until it has ended.
  unfoldable pub alone : ℕ → ℕ → C → Bool × C
  alone c zero x = (false, (own c).on_start x)
  alone c (suc n) x = own_turn own c (alone c n x)

  start_elsewhere :
      (q : ℕ) (cs : List ℕ) (w : Cells C) → Others own q cs → start_all (in_cell own) cs w q ≡ w q
  unfolding start_all
  start_elsewhere q [] w h = refl
  start_elsewhere q (c ∷ cs) w h =
      start_elsewhere q cs _ h.1 ∙ write_other c q ((own c).on_start (w c)) w h.0

  map-agree :
      (cs : List ℕ) (n : ℕ) (v w : Cells C)
      → All (λ c. v c ≡ w c) cs
      → map (λ c. alone c n (v c)) cs ≡ map (λ c. alone c n (w c)) cs
  map-agree [] n v w h = refl
  map-agree (c ∷ cs) n v w h = cc (h.0, map-agree cs n v w h.1)

  start_view :
      (cs : List ℕ) (w : Cells C)
      → IsApart own cs
      → view own cs (replicate (length cs) false) (start_all (in_cell own) cs w)
        ≡ map (λ c. alone c 0 (w c)) cs
  unfolding start_all alone
  start_view [] w h = refl
  start_view (c ∷ cs) w h =
      let v = write c ((own c).on_start (w c)) w in
      let kept : All (λ q. v q ≡ w q) cs =
        Others-same own c cs v w (λ q k. write_other c q ((own c).on_start (w c)) w k) h.0 in
      cc (
        start_elsewhere c cs v h.0,
        write_self c ((own c).on_start (w c)) w,
        start_view cs v h.1,
        map-agree cs 0 v w kept,
      )

  map-own_turns :
      (cs : List ℕ) (f : ℕ → Bool × C)
      → own_turns own cs (map f cs) ≡ map (λ c. own_turn own c (f c)) cs
  map-own_turns [] f = refl
  map-own_turns (c ∷ cs) f = cc (map-own_turns cs f)

  flags-view :
      (cs : List ℕ) (es : List Bool) (w : Cells C)
      → length es ≡ length cs
      → map (λ x. x.0) (view own cs es w) ≡ es
  flags-view [] [] w h = refl
  flags-view [] (e ∷ es) w h = absurd (omega arith)
  flags-view (c ∷ cs) [] w h = absurd (omega arith)
  flags-view (c ∷ cs) (e ∷ es) w h = cc (flags-view cs es w (omega arith))

  map-flags : (cs : List ℕ) (f : ℕ → Bool × C) → map (λ x. x.0) (map f cs) ≡ map (λ c. (f c).0) cs
  map-flags [] f = refl
  map-flags (c ∷ cs) f = cc (map-flags cs f)

  module _ (p : Parallel) (w : Cells C) (apart : IsApart own p.children) where
    abbrev at_round : ℕ → Parallel × Cells C
    at_round n = rounds (in_cell own) n (on_start (in_cell own) (p, w))

    running : (n : ℕ) → IsRunning p (at_round n).0
    unfolding rounds on_start
    running zero = record {
      same_children = refl;
      same_when = refl;
      full = length-replicate _ false;
    }
    running (suc n) =
        let before = running n in
        rw (action_lem (in_cell own) (at_round n) before.full) (record {
          same_children = before.same_children;
          same_when = before.same_when;
          full = length-turns (in_cell own) _ _ _ ∙ before.full;
        })

    view-rounds :
        (n : ℕ)
        → view own p.children (at_round n).0.ended (at_round n).1
          ≡ map (λ c. alone c n (w c)) p.children
    unfolding rounds on_start alone
    view-rounds zero = start_view p.children w apart
    view-rounds (suc n) =
        let before = running n in
        rw (action_lem (in_cell own) (at_round n) before.full) (
          rw before.same_children (
            view-turns own p.children (at_round n).0.ended (at_round n).1 apart
            ∙ (ap (own_turns own p.children) (view-rounds n)
                ∙ map-own_turns p.children (λ c. alone c n (w c)))))

    length-flags : (cs : List ℕ) (f : ℕ → Bool) → length (map f cs) ≡ length cs
    length-flags [] f = refl
    length-flags (c ∷ cs) f = ap suc (length-flags cs f)

    done-rounds :
        (n : ℕ)
        → is_empty p.children ≡ false
        → (done (in_cell own) (at_round n)).0
          ≡ is_enough p.when_done
              (count_set (map (λ c. (alone c n (w c)).0) p.children))
              (length p.children)
    unfolding done
    done-rounds n h =
        let r = running n in
        let test : (length (at_round n).0.ended == length (at_round n).0.children) ≡ true =
          (nat_beq_iff (length (at_round n).0.ended) (length (at_round n).0.children)).1 r.full in
        let flags : (at_round n).0.ended ≡ map (λ c. (alone c n (w c)).0) p.children =
          sym (
            flags-view p.children (at_round n).0.ended (at_round n).1
              (r.full ∙ ap length r.same_children))
          ∙ (ap (map (λ x. x.0)) (view-rounds n) ∙ map-flags p.children (λ c. alone c n (w c))) in
        let now = map (λ c. (alone c n (w c)).0) p.children in
        let counted : test_ended p.when_done now
            ≡ is_enough p.when_done (count_set now) (length p.children) =
          test_ended-is_enough p.when_done now
          ∙ ap (is_enough p.when_done (count_set now))
              (length-flags p.children (λ c. (alone c n (w c)).0)) in
        rw test
          (rw r.same_children (rw h (rw r.same_when (ap (test_ended p.when_done) flags ∙ counted))))

    -- After any number of rounds of a parallel behaviour with children, each child has the flag and the
    -- memory that it would have after as many turns alone, of which the last calls its `onEnd`, and the
    -- behaviour is done exactly when the count of the children that would have ended by then is their
    -- whole count, or is not zero, as it was told. The children are different objects and each works on
    -- its own memory.
    pub rounds_lem :
        (n : ℕ)
        → is_empty p.children ≡ false
        → (view own p.children (at_round n).0.ended (at_round n).1
            ≡ map (λ c. alone c n (w c)) p.children)
          × ((done (in_cell own) (at_round n)).0
              ≡ is_enough p.when_done
                  (count_set (map (λ c. (alone c n (w c)).0) p.children))
                  (length p.children))
    rounds_lem n h = (view-rounds n, done-rounds n h)
