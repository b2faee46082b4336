-- ===== src/Messaging/Mock.antt =====
-- MockTransport.hpp: the in-memory bus and the transport over it. The mutex makes each operation
-- one step, so an operation is a function on the bus.
pub mod Refinement
use Prim.Native.String.{◌++◌ as append}
use g_agent.Base.{
  ℕ, String, List, [], ◌∷◌, ◌++◌, Bool, true, false, Option, none, some, ◌==◌, string_key,
  if◌then◌else◌, ◌≡◌, refl, or_else, Map, lookup, insert, erase, lookup-insert, lookup-erase,
  eq_iff, length, arith, Option-cases, inl, inr, Bool-cases,
}
use g_agent.Messaging.Message.{AclMessage, acl_message, cfp, inform}
use g_agent.Messaging.Transport.{Transport, Mailbox, front, behind}

pub record MockBus : Type 0 where
  pub queues : Map String (List AclMessage)

abbrev pub empty_bus : MockBus
empty_bus = record { queues = [] }

-- `queues_[n]`: a missing queue is an empty one.
unfoldable pub queue : String → MockBus → List AclMessage
queue n b = or_else (lookup n b.queues) []

unfoldable pub deliver : String → AclMessage → MockBus → MockBus
unfolding queue
deliver to m b = record { queues = insert to (queue to b ++ m ∷ []) b.queues }

-- What is found is taken off the front of its queue.
take_front : String → Option (List AclMessage) → MockBus → Option AclMessage × MockBus
take_front n none b = (none, b)
take_front n (some []) b = (none, b)
take_front n (some (m ∷ ms)) b = (some m, record { queues = insert n ms b.queues })

unfoldable pub poll : String → MockBus → Option AclMessage × MockBus
unfolding take_front
poll n b = take_front n (lookup n b.queues) b

unfoldable pub clear : String → MockBus → MockBus
clear n b = record { queues = erase n b.queues }

unfoldable pub pending : String → MockBus → ℕ
pending n b = elim (lookup n b.queues) [ none ↦ 0 | some ms ↦ length ms ]

unfoldable pub mock_transport : Transport MockBus
mock_transport = record {
  bind = λ n b. (append "mock://" n, b);
  send = λ to m b. (true, deliver to m b);
  receive = λ n ms b. poll n b;
  unlink = λ n b. clear n b;
  flush = λ b. b;
}

pub queue-deliver :
    (n k : String) (m : AclMessage) (b : MockBus)
    → queue k (deliver n m b) ≡ (if n == k then queue k b ++ m ∷ [] else queue k b)
unfolding queue deliver
queue-deliver n k m b = ground (arith, eq_iff n k, lookup-insert n k (queue n b ++ m ∷ []) b.queues)

pub poll-front : (n : String) (b : MockBus) → (poll n b).0 ≡ front (queue n b)
unfolding poll queue
poll-front n b = ground arith

pub queue-poll :
    (n k : String) (b : MockBus)
    → queue k (poll n b).1 ≡ (if n == k then behind (queue k b) else queue k b)
unfolding poll queue
queue-poll n k b = elim (Option-cases (lookup n b.queues)) [
  | inl e ↦ ground (arith, eq_iff n k)
  | inr ([], e) ↦ ground (arith, eq_iff n k)
  | inr (m ∷ ms, e) ↦ ground (arith, eq_iff n k, lookup-insert n k ms b.queues)
]

-- `clear` leaves nothing for the name, and the queues of the others as they were.
pub queue-clear :
    (n k : String) (b : MockBus) → queue k (clear n b) ≡ (if n == k then [] else queue k b)
unfolding queue clear
queue-clear n k b = ground (arith, eq_iff n k, lookup-erase n k b.queues)

-- The count of waiting messages is the length of the queue.
pub pending-length : (n : String) (b : MockBus) → pending n b ≡ length (queue n b)
unfolding pending queue
pending-length n b = ground arith

-- The in-memory bus keeps the laws of a mailbox.
unfoldable pub mock_mailbox : Mailbox MockBus
unfolding mock_transport
mock_mailbox = record {
  transport = mock_transport;
  inbox = queue;
  inbox-bind = λ n k s. refl;
  inbox-send = λ n k m s. queue-deliver n k m s;
  receive-front = λ n ms s. poll-front n s;
  inbox-receive = λ n k ms s. queue-poll n k s;
}
