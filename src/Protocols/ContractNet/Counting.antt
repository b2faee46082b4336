-- ===== src/Protocols/ContractNet/Counting.antt =====
-- What the fields of an initiator of ContractNet.hpp hold between two turns.
use g_agent.Base.{
  ℕ, String, ◌≤◌, Bool, true, false, ◌||◌, Option, none, some, if◌then◌else◌, ◌==◌, string_key, leb,
  length, length-append, is_empty, All, All-append, ◌≡◌, refl, sym, ap, subst, arith, eq_iff,
  Bool-cases, inl, inr, List, [], ◌∷◌, ◌++◌,
}
use g_agent.Messaging.Message.{
  AclMessage, Performative, propose, refuse, not_understood, inform, failure,
}
use g_agent.Messaging.Transport.{Transport}
use g_agent.Protocols.World.{ClockWorld}
use g_agent.Protocols.ContractNet.{
  NetState, send_cfp, wait_proposals, handle_proposals, wait_results, over, Initiator,
  InitiatorCallbacks, start_call, enough, on_proposal, on_offer, await_proposals, choose, decide,
  decision, selected, all_in, on_result, on_outcome, await_results, act_in, action,
}

-- A proposal of this conversation.
abbrev pub Proposes : String → AclMessage → Type 0
Proposes conv m = (m.performative ≡ propose) × (m.conversation_id ≡ conv)

-- What is kept in each state: nothing is collected before the call; what is collected are proposals of
-- the conversation, no more than the answers counted; the pending results are at most the accepted
-- proposals; and only a call that is over is done.
abbrev pub IsCounted : Initiator → Type 0
IsCounted i =
    (i.state ≡ send_cfp → i.proposals ≡ [])
    × All (Proposes i.conv_id) i.proposals
    × (length i.proposals ≤ i.responded)
    × (i.results_pending ≤ length i.accepted)
    × (i.is_done ≡ true → i.state ≡ over)

-- A change of the fields that the invariant does not read, or from one state to another.
moved :
    (i : Initiator) (q : NetState)
    → (q ≡ send_cfp → i.state ≡ send_cfp)
    → (i.is_done ≡ true → q ≡ over)
    → IsCounted i
    → IsCounted (record i { state = q })
moved i q first last_one (a, b, c, d, e) = (λ h. a (first h), b, c, d, last_one)

enough-IsCounted : (i : Initiator) → i.state ≡ wait_proposals → IsCounted i → IsCounted (enough i)
enough-IsCounted i s h = elim (Bool-cases (leb (length i.participants) i.responded)) [
  | inl e ↦ rw e (moved i handle_proposals (λ q. cc) (λ d. cc (h.4 d, s)) h)
  | inr e ↦ rw e h
]

all_in-IsCounted : (i : Initiator) → IsCounted i → IsCounted (all_in i)
all_in-IsCounted i h = elim (Bool-cases (leb i.results_pending 0)) [
  | inl e ↦ rw e (moved i over (λ q. cc) (λ d. refl) h)
  | inr e ↦ rw e h
]

length-added :
    (b : Bool) (ns : List String) (n : String) → length ns ≤ length (if b then ns ++ n ∷ [] else ns)
length-added true ns n = omega (arith, length-append ns (n ∷ []))
length-added false ns n = omega arith

module _ {A S : Type 0} (net : Transport S) (clock : ℕ → ℕ) (on : InitiatorCallbacks A) where
  on_proposal-IsCounted :
      (p : Performative) (m : AclMessage) (i : Initiator) (w : ClockWorld A S)
      → m.performative ≡ p
      → m.conversation_id ≡ i.conv_id
      → i.state ≡ wait_proposals
      → IsCounted i
      → IsCounted (on_proposal net clock on p m i w).0
  unfolding on_proposal
  on_proposal-IsCounted propose m i w p conv s (a, b, c, d, e) = enough-IsCounted _ s (
    λ q. cc (q, s),
    All-append (Proposes i.conv_id) i.proposals (m ∷ []) b ((p, conv), tt),
    omega (arith, length-append i.proposals (m ∷ [])),
    d,
    e,
  )
  on_proposal-IsCounted refuse m i w p conv s (a, b, c, d, e) =
      enough-IsCounted _ s (a, b, omega arith, d, e)
  on_proposal-IsCounted not_understood m i w p conv s (a, b, c, d, e) =
      enough-IsCounted _ s (a, b, omega arith, d, e)
  on_proposal-IsCounted _ m i w p conv s h = enough-IsCounted i s h

  on_offer-IsCounted :
      (o : Option AclMessage) (i : Initiator) (w : ClockWorld A S)
      → i.state ≡ wait_proposals
      → IsCounted i
      → IsCounted (on_offer net clock on o i w).0
  on_offer-IsCounted none i w s h = h
  on_offer-IsCounted (some m) i w s h = elim (Bool-cases (m.conversation_id == i.conv_id)) [
    | inl e ↦ rw e (
        on_proposal-IsCounted m.performative m i w refl ((eq_iff m.conversation_id i.conv_id).0 e) s
          h)
    | inr e ↦ rw e h
  ]

  on_result-IsCounted :
      (p : Performative) (m : AclMessage) (i : Initiator) (w : ClockWorld A S)
      → IsCounted i
      → IsCounted (on_result net clock on p m i w).0
  unfolding on_result
  on_result-IsCounted inform m i w (a, b, c, d, e) = all_in-IsCounted _ (a, b, c, omega arith, e)
  on_result-IsCounted failure m i w (a, b, c, d, e) = all_in-IsCounted _ (a, b, c, omega arith, e)
  on_result-IsCounted _ m i w h = all_in-IsCounted i h

  on_outcome-IsCounted :
      (o : Option AclMessage) (i : Initiator) (w : ClockWorld A S)
      → IsCounted i
      → IsCounted (on_outcome net clock on o i w).0
  on_outcome-IsCounted none i w h = h
  on_outcome-IsCounted (some m) i w h = elim (Bool-cases (m.conversation_id == i.conv_id)) [
    | inl e ↦ rw e (on_result-IsCounted m.performative m i w h)
    | inr e ↦ rw e h
  ]

  decide-length :
      (n : String) (chosen : List String) (ms : List AclMessage) (accepted : List String) (s : S)
      → length accepted ≤ length (decide net n chosen ms accepted s).0
  unfolding decide
  decide-length n chosen [] accepted s = omega arith
  decide-length n chosen (m ∷ ms) accepted s = omega (
    arith,
    length-added (selected m.sender.name chosen) accepted m.sender.name,
    decide-length n chosen ms
        (if selected m.sender.name chosen then accepted ++ m.sender.name ∷ [] else accepted)
        (net.send m.sender.name (decision n chosen m) s).1,
  )

  choose-IsCounted :
      (i : Initiator) (w : ClockWorld A S)
      → i.state ≡ handle_proposals
      → IsCounted i
      → IsCounted (choose net clock on i w).0
  unfolding choose
  choose-IsCounted i w s (a, b, c, d, e) =
      let chosen = (on.select_proposals i.proposals w.app).0 in
      let grown = decide-length i.my_name chosen i.proposals i.accepted w.net in
      elim (Bool-cases (is_empty (decide net i.my_name chosen i.proposals i.accepted w.net).0)) [
        | inl h ↦ rw h (λ q. cc, b, c, omega (arith, d, grown), λ q. refl)
        | inr h ↦ rw h (λ q. cc, b, c, omega arith, λ q. cc (e q, s))
      ]

  act_in-IsCounted :
      (q : NetState) (i : Initiator) (w : ClockWorld A S)
      → i.state ≡ q
      → IsCounted i
      → IsCounted (act_in net clock on q i w).0
  unfolding act_in start_call await_proposals await_results
  act_in-IsCounted send_cfp i w s (a, b, c, d, e) = (
    λ q. a s,
    subst (All (Proposes _)) (sym (a s)) tt,
    omega (arith, ap length (a s)),
    d,
    λ q. cc (e q, s),
  )
  act_in-IsCounted wait_proposals i w s h =
      elim (Bool-cases
        (leb i.deadline (clock w.reads) || leb (length i.participants) i.responded)) [
          | inl e ↦ rw e (moved i handle_proposals (λ q. cc) (λ d. cc (h.4 d, s)) h)
          | inr e ↦ rw e (on_offer-IsCounted _ i _ s h)
        ]
  act_in-IsCounted handle_proposals i w s h = choose-IsCounted i w s h
  act_in-IsCounted wait_results i w s h =
      elim (Bool-cases (leb i.result_deadline (clock w.reads) || leb i.results_pending 0)) [
        | inl e ↦ rw e (moved i over (λ q. cc) (λ d. refl) h)
        | inr e ↦ rw e (on_outcome-IsCounted _ i _ h)
      ]
  act_in-IsCounted over i w s (a, b, c, d, e) = (a, b, c, d, λ q. s)

  -- A turn of an initiator in any state keeps what its fields hold together: nothing is collected
  -- before the call; what is collected are proposals of the conversation, no more than the answers
  -- counted; the pending results are at most the accepted names; and only a call that is over is done.
  pub action-IsCounted :
      (i : Initiator) (w : ClockWorld A S) → IsCounted i → IsCounted (action net clock on (i, w)).0
  unfolding action
  action-IsCounted i w h = act_in-IsCounted i.state i w refl h
