-- ===== src/Tests/Conversations.antt =====
-- Concrete conversations over the in-memory bus.
use g_agent.Base.{
  inl, ℕ, suc, ◌*◌, ◌<◌, String, List, [], ◌∷◌, ◌++◌, true, false, some, ◌≡◌, refl, arith, map,
  keep, string_key, lookup, IsDistinct,
}
use g_agent.Core.Behaviour.{run_loop, Runs}
use g_agent.Messaging.Message.{
  accept_proposal, agree, AclMessage, acl_message, agent_id, inform, cfp, propose, subscribe,
}
use g_agent.Messaging.Mock.{MockBus, empty_bus, queue, mock_mailbox, mock_transport}
use g_agent.Protocols.World.{World, ClockWorld}
use g_agent.Protocols.Request as Req
use g_agent.Protocols.Request.{
  RequestInitiator, RequestParticipant, request_message, agree_message, complete_response,
}
use g_agent.Protocols.Request.Session.{session, session_completes}
use g_agent.Protocols.ContractNet as Cnp
use g_agent.Protocols.ContractNet.{Initiator, selected, decision, decide, initiator_methods}
use g_agent.Protocols.ContractNet.Decisions.{is_chosen, verdict, offers_of, decide_lem}
use g_agent.Protocols.ContractNet.Ending.{Runs-initiator}
use g_agent.Protocols.ContractNet.Counting.{IsCounted, action-IsCounted}
use g_agent.Protocols.ContractNet.Participant as CnpPart
use g_agent.Protocols.ContractNet.Participant.{
  Participant, ParticipantCallbacks, address_reply, participant_methods,
}
use g_agent.Protocols.ContractNet.Participant.Task.{answer_with, bidder, task_done}
use g_agent.Protocols.Subscribe as Sub
use g_agent.Protocols.Subscribe.{
  Subscriber, SubscriberCallbacks, cancel_message, subscriber_methods,
}
use g_agent.Protocols.Subscribe.Cancelling.{goodbye, cancelling_ends}
use g_agent.Protocols.Subscribe.Publisher.{Publisher, PublisherCallbacks, notify, publisher_action}
use g_agent.Protocols.Subscribe.Publisher.Letters.{assent, notices}
use g_agent.Protocols.Subscribe.Publisher.Notices.{notify-publisher_action}

abbrev ticks : ℕ → ℕ
ticks k = k * 1000

ticks_rise : (k : ℕ) → ticks k < ticks (suc k)
ticks_rise k = omega arith

-- A program that counts the calls of its callbacks.
abbrev counting : Req.InitiatorCallbacks ℕ
counting = record {
  handle_agree = λ m n. suc n;
  handle_inform = λ m n. suc n;
  handle_refuse = λ m n. suc n;
  handle_failure = λ m n. suc n;
  handle_not_understood = λ m n. suc n;
  handle_timeout = λ n. suc n;
}

abbrev willing : Req.ParticipantCallbacks ℕ
willing = record {
  prepare_agree = λ m n. (true, suc n);
  handle_request = λ m n. (acl_message inform, suc n);
}

abbrev alice : RequestInitiator
alice = record {
  my_name = "alice";
  target = "bob";
  content = "sum";
  ontology = "";
  conv_id = "req-alice-7";
  timeout_ms = 5000;
  state = Req.send_request;
  is_done = false;
}

abbrev bob : RequestParticipant
bob = record { my_name = "bob"; tick_ms = 500 }

session_completes_example :
    (s' : MockBus) × (session mock_mailbox counting willing alice bob 0 0 empty_bus ≡ (
      some (
        record alice { state = Req.wait_response; is_done = true },
        record { app = 2; net = s' },
      ),
      2,
    ))
    × (queue "alice" s' ≡ [])
unfolding mock_mailbox queue lookup complete_response request_message
session_completes_example =
    session_completes mock_mailbox counting willing alice bob 0 0 empty_bus (λ m n. suc n) refl refl
      refl refl refl refl (inl refl) refl

abbrev offer : String → AclMessage
offer n = record (acl_message propose) { sender = agent_id n; conversation_id = "cnp-alice-1" }

abbrev offers : List AclMessage
offers = offer "bob" ∷ offer "eve" ∷ offer "bob" ∷ []

decide_lem_example :
    ((k : String)
      → queue k (decide mock_mailbox.transport "alice" ("bob" ∷ []) offers [] empty_bus).1
        ≡ queue k empty_bus ++ map (verdict "alice" ("bob" ∷ [])) (offers_of k offers))
    × ((decide mock_mailbox.transport "alice" ("bob" ∷ []) offers [] empty_bus).0
        ≡ [] ++ map (λ m. m.sender.name) (keep (λ m. is_chosen m.sender.name ("bob" ∷ [])) offers))
unfolding mock_mailbox
decide_lem_example = decide_lem mock_mailbox "alice" ("bob" ∷ []) offers [] empty_bus

abbrev choosing : Cnp.InitiatorCallbacks ℕ
choosing = record {
  select_proposals = λ ms n. ("bob" ∷ [], n);
  handle_inform = λ m n. suc n;
  handle_failure = λ m n. suc n;
  handle_refuse = λ m n. suc n;
}

abbrev caller : Initiator
caller = record {
  my_name = "alice";
  cfp = acl_message cfp;
  participants = agent_id "bob" ∷ agent_id "eve" ∷ [];
  proposal_timeout_ms = 5000;
  result_timeout_ms = 10000;
  state = Cnp.send_cfp;
  is_done = false;
  conv_id = "";
  proposals = [];
  accepted = [];
  responded = 0;
  results_pending = 0;
  deadline = 0;
  result_deadline = 0;
}

abbrev start : ClockWorld ℕ MockBus
start = record { app = 0; net = empty_bus; reads = 0 }

Runs-initiator_example :
    (u : Initiator × ClockWorld ℕ MockBus) × Runs
      (initiator_methods mock_transport ticks choosing)
      (caller, start)
      u
Runs-initiator_example = Runs-initiator mock_transport ticks choosing ticks_rise caller start

caller-IsCounted : IsCounted caller
caller-IsCounted = (λ e. refl, tt, omega arith, omega arith, λ e. cc)

action-IsCounted_example : IsCounted (Cnp.action mock_transport ticks choosing (caller, start)).0
action-IsCounted_example =
    action-IsCounted mock_transport ticks choosing caller start caller-IsCounted

abbrev publisher : Publisher
publisher = record {
  my_name = "news";
  poll_ms = 200;
  subscribers = ("alice", record { conv_id = "snp-alice-1" }) ∷ [];
}

abbrev accepting : PublisherCallbacks ℕ
accepting = record {
  handle_subscribe = λ m n. (true, suc n);
  handle_cancel = λ k n. ("bye", suc n);
}

abbrev wish : AclMessage
wish = record (acl_message subscribe) { sender = agent_id "bob"; conversation_id = "snp-bob-2" }

abbrev waiting : World ℕ MockBus
waiting = record { app = 0; net = record { queues = ("news", wish ∷ []) ∷ [] } }

notify-publisher_action_example :
    let (p', w') = publisher_action mock_mailbox.transport accepting (publisher, waiting) in
    IsDistinct p'.subscribers
    × (queue "bob" w'.net ≡ queue "bob" waiting.net ++ assent agree publisher.my_name wish ∷ [])
    × (queue "bob" (notify mock_mailbox.transport "storm" "" p' w'.net)
        ≡ queue "bob" w'.net
          ++ notices p'.my_name "storm" "" (some (record { conv_id = "snp-bob-2" })))
unfolding mock_mailbox
notify-publisher_action_example =
    notify-publisher_action mock_mailbox accepting publisher waiting wish [] "storm" "" "bob"
      (unfold queue lookup in refl) (tt, tt)

abbrev worker : Participant
worker = record {
  my_name = "bob";
  timeout_ms = 8000;
  state = CnpPart.wait_cfp;
  is_done = false;
  conv_id = "";
  initiator = "";
}

abbrev bidding : CnpPart.ParticipantCallbacks ℕ
bidding = record {
  prepare_proposal = λ m n. (acl_message propose, suc n);
  execute_task = λ m n. (acl_message inform, suc n);
}

abbrev call_to_bob : AclMessage
call_to_bob = record (acl_message cfp) {
  sender = agent_id "alice";
  conversation_id = "cnp-1";
  reply_with = "r";
}

abbrev award : AclMessage
award = record (acl_message accept_proposal) {
  sender = agent_id "alice";
  conversation_id = "cnp-1";
}

abbrev called : MockBus
called = record { queues = ("bob", call_to_bob ∷ award ∷ []) ∷ [] }

task_done_example :
    (s' : MockBus) × (run_loop 2
        (participant_methods mock_mailbox.transport bidding)
        (worker, record { app = 0; net = called })
      ≡ some (record (bidder worker call_to_bob) { is_done = true }, record { app = 2; net = s' }))
    × (queue "bob" s' ≡ [])
    × (queue "alice" s'
        ≡ queue "alice" called
          ++ answer_with worker "cnp-1" call_to_bob (acl_message propose)
            ∷ answer_with worker "cnp-1" award (acl_message inform)
            ∷ [])
unfolding mock_mailbox queue lookup
task_done_example =
    task_done mock_mailbox bidding worker 0 called call_to_bob award refl refl refl refl refl refl
      refl refl

abbrev reader : Subscriber
reader = record {
  my_name = "bob";
  publisher = "news";
  topic = "weather";
  ontology = "";
  agree_timeout = 5000;
  state = Sub.wait_notify;
  is_done = false;
  conv_id = "snp-bob-2";
  deadline = 0;
}

abbrev leaving : SubscriberCallbacks ℕ
leaving = record {
  handle_notify = λ m n. suc n;
  handle_refuse = λ m n. n;
  should_cancel = λ n. (true, n);
}

abbrev last_news : AclMessage
last_news = record (acl_message inform) { sender = agent_id "news"; conversation_id = "snp-bob-2" }

abbrev notified : ClockWorld ℕ MockBus
notified = record { app = 0; net = record { queues = ("bob", last_news ∷ []) ∷ [] }; reads = 0 }

cancelling_ends_example :
    (s' : MockBus) × (run_loop 2
        (subscriber_methods mock_mailbox.transport ticks leaving)
        (reader, notified)
      ≡ some (
        record reader { state = Sub.wait_cancel_ack; is_done = true },
        record notified { app = 1; net = s' },
      ))
    × (queue "news" s' ≡ queue "news" notified.net ++ goodbye reader ∷ [])
    × (queue "bob" s' ≡ [])
unfolding mock_mailbox queue lookup
cancelling_ends_example =
    cancelling_ends mock_mailbox ticks leaving reader notified refl refl refl refl
