-- ===== src/Protocols/ContractNet.antt =====
-- `ContractNetInitiator` of ContractNet.hpp. The virtual functions that a program overrides are fields
-- of a record of functions on the program's own memory `A`; the network is the state `S` of a
-- transport; `clock k` is the k-th reading of the steady clock, in nanoseconds.
pub mod Participant
pub mod Decisions
pub mod Ending
pub mod Counting
use Prim.Native.String.{◌++◌ as append}
use g_agent.Base.{
  ℕ, zero, suc, ◌+◌, ◌-◌, ◌*◌, ◌/◌, ◌%◌, min, String, List, [], ◌∷◌, ◌++◌, Bool, true, false, ◌||◌,
  Option, none, some, if◌then◌else◌, ◌==◌, string_key, leb, length, is_empty, pos,
}
use g_agent.Core.Behaviour.{Methods}
use g_agent.Messaging.Message.{
  AgentIdentifier, AclMessage, agent_id, Performative, propose, refuse, not_understood, inform,
  failure, accept_proposal, reject_proposal, create_reply,
}
use g_agent.Messaging.Transport.{Transport}
use g_agent.Platform.Input.{decimal}
use g_agent.Protocols.World.{ClockWorld}

pub data NetState : Type 0 where
  send_cfp wait_proposals handle_proposals wait_results over : NetState

pub record Initiator : Type 0 where
  pub my_name : String
  pub cfp : AclMessage
  pub participants : List AgentIdentifier
  pub proposal_timeout_ms : ℕ
  pub result_timeout_ms : ℕ
  pub state : NetState
  pub is_done : Bool
  pub conv_id : String
  pub proposals : List AclMessage
  pub accepted : List String
  pub responded : ℕ
  pub results_pending : ℕ
  pub deadline : ℕ
  pub result_deadline : ℕ

-- The constructor, with the values of the class for the fields that it does not set.
unfoldable pub new_initiator : String → AclMessage → List AgentIdentifier → ℕ → ℕ → Initiator
new_initiator my_name cfp participants proposal_timeout_ms result_timeout_ms = record {
  my_name = my_name;
  cfp = cfp;
  participants = participants;
  proposal_timeout_ms = proposal_timeout_ms;
  result_timeout_ms = result_timeout_ms;
  state = send_cfp;
  is_done = false;
  conv_id = "";
  proposals = [];
  accepted = [];
  responded = 0;
  results_pending = 0;
  deadline = 0;
  result_deadline = 0;
}

pub record InitiatorCallbacks (A : Type 0) : Type 0 where
  pub select_proposals : List AclMessage → A → List String × A
  pub handle_inform : AclMessage → A → A
  pub handle_failure : AclMessage → A → A
  pub handle_refuse : AclMessage → A → A

-- `accept_set.count(n)`
abbrev pub selected : String → List String → Bool
selected n [] = false
selected n (k ∷ ks) = k == n || selected n ks

-- `chrono::milliseconds`, in nanoseconds.
abbrev pub ms : ℕ → ℕ
ms n = n * 1_000_000

-- The wait of one `receive`: what is left in whole milliseconds, and at most 500.
abbrev pub slice : ℕ → ℕ → ℕ
slice limit now = min 500 ((limit - now) / 1_000_000)

-- The call for proposals as the state SEND_CFP completes it.
unfoldable pub complete_cfp : Initiator → String → AclMessage
complete_cfp i conv = record (i.cfp) {
  conversation_id = conv;
  sender = agent_id i.my_name;
  reply_with = append "cfp-" conv;
  protocol = "fipa-contract-net";
}

-- What answers a proposal.
unfoldable pub decision : String → List String → AclMessage → AclMessage
decision my_name chosen m =
    record (create_reply
      (if selected m.sender.name chosen then accept_proposal else reject_proposal) m) {
        sender = agent_id my_name;
      }

-- The end of a turn that counts answers.
abbrev pub enough : Initiator → Initiator
enough i =
    if leb (length i.participants) i.responded then record i { state = handle_proposals } else i

abbrev pub all_in : Initiator → Initiator
all_in i = if leb i.results_pending 0 then record i { state = over } else i

module _ {S : Type 0} (net : Transport S) where
  unfoldable pub send_all : AclMessage → List AgentIdentifier → S → S
  send_all m [] s = s
  send_all m (p ∷ ps) s = send_all m ps (net.send p.name m s).1

  -- The loop over the proposals: the network, and `accepted_` after it.
  unfoldable pub decide : String → List String → List AclMessage → List String → S → List String × S
  decide my_name chosen [] accepted s = (accepted, s)
  decide my_name chosen (m ∷ more) accepted s =
      decide my_name chosen more
        (if selected m.sender.name chosen then accepted ++ m.sender.name ∷ [] else accepted)
        (net.send m.sender.name (decision my_name chosen m) s).1

module _ {A S : Type 0} (net : Transport S) (clock : ℕ → ℕ) (on : InitiatorCallbacks A) where
  unfoldable pub start_call : Initiator → ClockWorld A S → Initiator × ClockWorld A S
  unfolding send_all
  start_call i w =
      let conv =
        append "cnp-" (append i.my_name (append "-" (decimal (clock w.reads % 100_000)))) in
      let cfp = complete_cfp i conv in
      (
        record i {
          conv_id = conv;
          cfp = cfp;
          deadline = clock (suc w.reads) + ms i.proposal_timeout_ms;
          responded = 0;
          state = wait_proposals;
        },
        record w { net = send_all net cfp i.participants w.net; reads = suc (suc w.reads) },
      )

  -- A message of this conversation in the state WAIT_PROPOSALS.
  unfoldable pub on_proposal :
      Performative → AclMessage → Initiator → ClockWorld A S → Initiator × ClockWorld A S
  on_proposal propose m i w =
      (enough (record i { proposals = i.proposals ++ m ∷ []; responded = suc i.responded }), w)
  on_proposal refuse m i w = (
    enough (record i { responded = suc i.responded }),
    record w { app = on.handle_refuse m w.app },
  )
  on_proposal not_understood m i w = (
    enough (record i { responded = suc i.responded }),
    record w { app = on.handle_refuse m w.app },
  )
  on_proposal _ m i w = (enough i, w)

  abbrev pub on_offer : Option AclMessage → Initiator → ClockWorld A S → Initiator × ClockWorld A S
  on_offer none i w = (i, w)
  on_offer (some m) i w =
      if m.conversation_id == i.conv_id then on_proposal m.performative m i w else (i, w)

  unfoldable pub await_proposals : Initiator → ClockWorld A S → Initiator × ClockWorld A S
  unfolding on_proposal
  await_proposals i w =
      let now = clock w.reads in
      let w1 = record w { reads = suc w.reads } in
      let (opt, net') = net.receive i.my_name (slice i.deadline now) w.net in
      if leb i.deadline now || leb (length i.participants) i.responded
      then (record i { state = handle_proposals }, w1)
      else on_offer opt i (record w1 { net = net' })

  unfoldable pub choose : Initiator → ClockWorld A S → Initiator × ClockWorld A S
  unfolding decide
  choose i w =
      let (chosen, app') = on.select_proposals i.proposals w.app in
      let (accepted, net') = decide net i.my_name chosen i.proposals i.accepted w.net in
      if is_empty accepted
      then (record i { accepted = accepted; state = over }, record w { app = app'; net = net' })
      else (
        record i {
          accepted = accepted;
          result_deadline = clock w.reads + ms i.result_timeout_ms;
          results_pending = length accepted;
          state = wait_results;
        },
        record w { app = app'; net = net'; reads = suc w.reads },
      )

  -- A message of this conversation in the state WAIT_RESULTS. A result is only counted while one is
  -- pending, so the count does not pass 0.
  unfoldable pub on_result :
      Performative → AclMessage → Initiator → ClockWorld A S → Initiator × ClockWorld A S
  on_result inform m i w = (
    all_in (record i { results_pending = i.results_pending - 1 }),
    record w { app = on.handle_inform m w.app },
  )
  on_result failure m i w = (
    all_in (record i { results_pending = i.results_pending - 1 }),
    record w { app = on.handle_failure m w.app },
  )
  on_result _ m i w = (all_in i, w)

  abbrev pub on_outcome :
      Option AclMessage → Initiator → ClockWorld A S → Initiator × ClockWorld A S
  on_outcome none i w = (i, w)
  on_outcome (some m) i w =
      if m.conversation_id == i.conv_id then on_result m.performative m i w else (i, w)

  unfoldable pub await_results : Initiator → ClockWorld A S → Initiator × ClockWorld A S
  unfolding on_result
  await_results i w =
      let now = clock w.reads in
      let w1 = record w { reads = suc w.reads } in
      let (opt, net') = net.receive i.my_name (slice i.result_deadline now) w.net in
      if leb i.result_deadline now || leb i.results_pending 0
      then (record i { state = over }, w1)
      else on_outcome opt i (record w1 { net = net' })

  unfoldable pub act_in : NetState → Initiator → ClockWorld A S → Initiator × ClockWorld A S
  act_in send_cfp i w = start_call i w
  act_in wait_proposals i w = await_proposals i w
  act_in handle_proposals i w = choose i w
  act_in wait_results i w = await_results i w
  act_in over i w = (record i { is_done = true }, w)

  unfoldable pub action : Initiator × ClockWorld A S → Initiator × ClockWorld A S
  unfolding act_in
  action (i, w) = act_in i.state i w

  abbrev pub initiator_methods : Methods (Initiator × ClockWorld A S)
  initiator_methods = record {
    on_start = λ x. (x.0, record (x.1) { net = (net.bind x.0.my_name x.1.net).1 });
    action = action;
    done = λ x. (x.0.is_done, x);
    on_end = λ x. x;
    exit_value = λ x. pos 0;
  }
