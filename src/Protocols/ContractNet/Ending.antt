-- ===== src/Protocols/ContractNet/Ending.antt =====
-- How the turns of the initiator of ContractNet.hpp come to an end.
use g_agent.Base.{
  ℕ, zero, suc, ◌+◌, ◌-◌, ◌≤◌, ◌<◌, true, ◌||◌, Option, none, some, ◌==◌, string_key, leb, length,
  is_empty, ◌≡◌, refl, sym, ap, subst, ◌⊎◌, inl, inr, arith, Bool-cases,
}
use g_agent.Core.Behaviour.{Methods, Loops, last, more, Runs, ran}
use g_agent.Messaging.Message.{
  AclMessage, Performative, propose, refuse, not_understood, inform, failure,
}
use g_agent.Messaging.Transport.{Transport}
use g_agent.Protocols.World.{ClockWorld}
use g_agent.Protocols.ContractNet.{
  NetState, send_cfp, wait_proposals, handle_proposals, wait_results, over, Initiator,
  InitiatorCallbacks, start_call, on_proposal, on_offer, await_proposals, choose, decide, on_result,
  on_outcome, enough, await_results, act_in, action, initiator_methods,
}

module _ {A S : Type 0} (net : Transport S) (clock : ℕ → ℕ) (on : InitiatorCallbacks A) where
  abbrev Side : Type 0
  Side = Initiator × ClockWorld A S

  abbrev looping : Methods Side
  looping = initiator_methods net clock on

  abbrev Ends : Side → Type 0
  Ends x = (u : Side) × Loops looping x u

  -- One turn: what ends after it ends.
  step : (x y : Side) → action net clock on x ≡ y → Ends y → Ends x
  step x (i, w) e (u, l) = elim (Bool-cases i.is_done) [
    | inl d ↦ ((i, w), last (rw (e, d)))
    | inr d ↦ (u, more (rw (e, d)) l)
  ]

  act_of :
      (q : NetState) (i : Initiator) (w : ClockWorld A S)
      → i.state ≡ q
      → action net clock on (i, w) ≡ act_in net clock on q i w
  unfolding action
  act_of q i w e = ap (λ r. act_in net clock on r i w) e

  over-Ends : (i : Initiator) (w : ClockWorld A S) → i.state ≡ over → Ends (i, w)
  unfolding act_in
  over-Ends i w e =
      ((record i { is_done = true }, w), last (ap (λ x. (x.0.is_done, x)) (act_of over i w e)))

  -- `x` has left the state `stay` for `stop`, or is in it with the same deadline, after `k` readings.
  Waits : NetState → NetState → (Initiator → ℕ) → ℕ → Initiator → Side → Type 0
  Waits stay stop limit k i x =
      (x.0.state ≡ stop) ⊎ ((x.0.state ≡ stay) × (limit x.0 ≡ limit i) × (x.1.reads ≡ k))

  abbrev ForResults : Initiator → Side → ℕ → Type 0
  ForResults i x k = Waits wait_results over (λ j. j.result_deadline) k i x

  abbrev ForProposals : Initiator → Side → ℕ → Type 0
  ForProposals i x k = Waits wait_proposals handle_proposals (λ j. j.deadline) k i x

  on_result-Waits :
      (p : Performative) (m : AclMessage) (i : Initiator) (w : ClockWorld A S)
      → i.state ≡ wait_results
      → ForResults i (on_result net clock on p m i w) w.reads
  unfolding on_result Waits
  on_result-Waits inform m i w e = elim (Bool-cases (leb (i.results_pending - 1) 0)) [
    | inl h ↦ inl (rw h)
    | inr h ↦ inr (rw h e, rw h, refl)
  ]
  on_result-Waits failure m i w e = elim (Bool-cases (leb (i.results_pending - 1) 0)) [
    | inl h ↦ inl (rw h)
    | inr h ↦ inr (rw h e, rw h, refl)
  ]
  on_result-Waits _ m i w e = elim (Bool-cases (leb i.results_pending 0)) [
    | inl h ↦ inl (rw h)
    | inr h ↦ inr (rw h e, rw h, refl)
  ]

  on_outcome-Waits :
      (o : Option AclMessage) (i : Initiator) (w : ClockWorld A S)
      → i.state ≡ wait_results
      → ForResults i (on_outcome net clock on o i w) w.reads
  unfolding Waits
  on_outcome-Waits none i w e = inr (e, refl, refl)
  on_outcome-Waits (some m) i w e = elim (Bool-cases (m.conversation_id == i.conv_id)) [
    | inl h ↦ rw h (on_result-Waits m.performative m i w e)
    | inr h ↦ rw h (inr (e, refl, refl))
  ]

  enough-Waits :
      (i j : Initiator) (w : ClockWorld A S)
      → j.state ≡ wait_proposals
      → j.deadline ≡ i.deadline
      → ForProposals i (enough j, w) w.reads
  unfolding Waits
  enough-Waits i j w e d = elim (Bool-cases (leb (length j.participants) j.responded)) [
    | inl h ↦ inl (rw h)
    | inr h ↦ inr (rw h e, rw h d, refl)
  ]

  on_proposal-Waits :
      (p : Performative) (m : AclMessage) (i : Initiator) (w : ClockWorld A S)
      → i.state ≡ wait_proposals
      → ForProposals i (on_proposal net clock on p m i w) w.reads
  unfolding on_proposal
  on_proposal-Waits propose m i w e = enough-Waits i _ _ e refl
  on_proposal-Waits refuse m i w e = enough-Waits i _ _ e refl
  on_proposal-Waits not_understood m i w e = enough-Waits i _ _ e refl
  on_proposal-Waits _ m i w e = enough-Waits i i w e refl

  on_offer-Waits :
      (o : Option AclMessage) (i : Initiator) (w : ClockWorld A S)
      → i.state ≡ wait_proposals
      → ForProposals i (on_offer net clock on o i w) w.reads
  unfolding Waits
  on_offer-Waits none i w e = inr (e, refl, refl)
  on_offer-Waits (some m) i w e = elim (Bool-cases (m.conversation_id == i.conv_id)) [
    | inl h ↦ rw h (on_proposal-Waits m.performative m i w e)
    | inr h ↦ rw h (inr (e, refl, refl))
  ]

  -- A turn of a waiting state: it ends the wait, or it is before the deadline and reads the clock once.
  abbrev Turn : NetState → NetState → (Initiator → ℕ) → Type 0
  Turn stay stop limit =
      (i : Initiator) (w : ClockWorld A S)
      → i.state ≡ stay
      → ((action net clock on (i, w)).0.state ≡ stop)
        ⊎ (Waits stay stop limit (suc w.reads) i (action net clock on (i, w))
            × (clock w.reads < limit i))

  await_results-Turn : Turn wait_results over (λ j. j.result_deadline)
  unfolding await_results act_in
  await_results-Turn i w e =
      let turn = act_of wait_results i w e in
      elim (Bool-cases (leb i.result_deadline (clock w.reads) || leb i.results_pending 0)) [
        | inl h ↦ inl (rw turn (rw h))
        | inr h ↦ inr (rw turn (rw h (on_outcome-Waits _ i _ e)), ground arith)
      ]

  await_proposals-Turn : Turn wait_proposals handle_proposals (λ j. j.deadline)
  unfolding await_proposals act_in
  await_proposals-Turn i w e =
      let turn = act_of wait_proposals i w e in
      elim (Bool-cases
        (leb i.deadline (clock w.reads) || leb (length i.participants) i.responded)) [
          | inl h ↦ inl (rw turn (rw h))
          | inr h ↦ inr (rw turn (rw h (on_offer-Waits _ i _ e)), ground arith)
        ]

  module _ (rises : (k : ℕ) → clock k < clock (suc k)) where
    -- A wait ends when the clock has passed its deadline, `n` or fewer readings ahead.
    countdown :
        (stay stop : NetState) (limit : Initiator → ℕ)
        → Turn stay stop limit
        → ((i : Initiator) (w : ClockWorld A S) → i.state ≡ stop → Ends (i, w))
        → (n : ℕ) (i : Initiator) (w : ClockWorld A S) → i.state ≡ stay
        → limit i ≤ clock w.reads + n
        → Ends (i, w)
    unfolding Waits
    countdown stay stop limit turn after zero i w e h = elim (turn i w e) [
      | inl out ↦ step (i, w) _ refl (after _ _ out)
      | inr (x, before) ↦ absurd (omega (arith, h, before))
    ]
    countdown stay stop limit turn after (suc n) i w e h = elim (turn i w e) [
      | inl out ↦ step (i, w) _ refl (after _ _ out)
      | inr (inl out, before) ↦ step (i, w) _ refl (after _ _ out)
      | inr (inr (stays, same, once), before) ↦
          let risen : clock w.reads < clock (action net clock on (i, w)).1.reads =
            subst (λ k. clock w.reads < clock k) (sym once) (rises w.reads) in
          step (i, w) _ refl
            (countdown stay stop limit turn after n _ _ stays (omega (arith, risen, same, h)))
    ]

    results-Ends : (i : Initiator) (w : ClockWorld A S) → i.state ≡ wait_results → Ends (i, w)
    results-Ends i w e =
        countdown wait_results over (λ j. j.result_deadline) await_results-Turn over-Ends
          i.result_deadline i w e (omega arith)

    choose-state :
        (i : Initiator) (w : ClockWorld A S)
        → ((choose net clock on i w).0.state ≡ over)
          ⊎ ((choose net clock on i w).0.state ≡ wait_results)
    unfolding choose
    choose-state i w =
        let (chosen, app') = on.select_proposals i.proposals w.app in
        let accepted = (decide net i.my_name chosen i.proposals i.accepted w.net).0 in
        elim (Bool-cases (is_empty accepted)) [ inl h ↦ inl (rw h) | inr h ↦ inr (rw h) ]

    choose-Ends : (i : Initiator) (w : ClockWorld A S) → i.state ≡ handle_proposals → Ends (i, w)
    unfolding act_in
    choose-Ends i w e =
        step (i, w) (choose net clock on i w) (act_of handle_proposals i w e)
          (elim (choose-state i w) [ inl h ↦ over-Ends _ _ h | inr h ↦ results-Ends _ _ h ])

    proposals-Ends : (i : Initiator) (w : ClockWorld A S) → i.state ≡ wait_proposals → Ends (i, w)
    proposals-Ends i w e =
        countdown wait_proposals handle_proposals (λ j. j.deadline) await_proposals-Turn choose-Ends
          i.deadline i w e (omega arith)

    state-Ends : (q : NetState) (i : Initiator) (w : ClockWorld A S) → i.state ≡ q → Ends (i, w)
    unfolding act_in start_call
    state-Ends send_cfp i w e = step (i, w) _ (act_of send_cfp i w e) (proposals-Ends _ _ refl)
    state-Ends wait_proposals i w e = proposals-Ends i w e
    state-Ends handle_proposals i w e = choose-Ends i w e
    state-Ends wait_results i w e = results-Ends i w e
    state-Ends over i w e = over-Ends i w e

    -- With a clock that moves at each reading, the thread of an initiator ends, whatever state the
    -- initiator starts in, whatever the transport delivers or loses and whatever the callbacks do.
    pub Runs-initiator :
        (i : Initiator) (w : ClockWorld A S)
        → (u : Initiator × ClockWorld A S) × Runs (initiator_methods net clock on) (i, w) u
    Runs-initiator i w =
        let (u, l) = state-Ends i.state i (record w { net = (net.bind i.my_name w.net).1 }) refl in
        (u, ran l)
