-- ===== src/Messaging/Mock/Refinement.antt =====
-- The bus of MockTransport.hpp against its specification, a queue for each name.
use mathlib.Core.Path.{fun_ext}
use g_agent.Base.{
  String, List, [], ◌∷◌, ◌++◌, Option, none, ◌==◌, string_key, if◌then◌else◌, ◌≡◌, refl, sym,
}
use g_agent.Messaging.Message.{AclMessage}
use g_agent.Messaging.Transport.{front, behind}
use g_agent.Messaging.Mock.{
  MockBus, queue, deliver, poll, clear, queue-deliver, poll-front, queue-poll, queue-clear,
}

pub data Call : Type 0 where
  sends : String → AclMessage → Call
  receives : String → Call
  unlinks : String → Call

-- A call of the transport on the bus, with the message that it returns.
bus_step : Call → MockBus → Option AclMessage × MockBus
bus_step (sends n m) b = (none, deliver n m b)
bus_step (receives n) b = poll n b
bus_step (unlinks n) b = (none, clear n b)

pub run_bus : List Call → MockBus → List (Option AclMessage)
run_bus [] b = []
run_bus (c ∷ cs) b = (bus_step c b).0 ∷ run_bus cs (bus_step c b).1

abbrev pub Inboxes : Type 0
Inboxes = String → List AclMessage

abbrev change : String → (List AclMessage → List AclMessage) → Inboxes → Inboxes
change n f q k = if n == k then f (q k) else q k

spec_step : Call → Inboxes → Option AclMessage × Inboxes
spec_step (sends n m) q = (none, change n (λ ms. ms ++ m ∷ []) q)
spec_step (receives n) q = (front (q n), change n behind q)
spec_step (unlinks n) q = (none, change n (λ ms. []) q)

pub run_spec : List Call → Inboxes → List (Option AclMessage)
run_spec [] q = []
run_spec (c ∷ cs) q = (spec_step c q).0 ∷ run_spec cs (spec_step c q).1

bus_step-output : (c : Call) (b : MockBus) → (bus_step c b).0 ≡ (spec_step c (λ k. queue k b)).0
unfolding bus_step spec_step
bus_step-output (sends n m) b = refl
bus_step-output (receives n) b = poll-front n b
bus_step-output (unlinks n) b = refl

bus_step-inboxes :
    (c : Call) (b : MockBus) → (spec_step c (λ k. queue k b)).1 ≡ (λ k. queue k (bus_step c b).1)
unfolding bus_step spec_step
bus_step-inboxes (sends n m) b = fun_ext λ k. sym (queue-deliver n k m b)
bus_step-inboxes (receives n) b = fun_ext λ k. sym (queue-poll n k b)
bus_step-inboxes (unlinks n) b = fun_ext λ k. sym (queue-clear n k b)

-- For every sequence of calls on any bus, the messages that the bus returns are those of one
-- first-in first-out queue for each name, started with what the bus holds.
pub run_bus-run_spec : (cs : List Call) (b : MockBus) → run_bus cs b ≡ run_spec cs (λ k. queue k b)
unfolding run_bus run_spec
run_bus-run_spec [] b = refl
run_bus-run_spec (c ∷ cs) b =
    rw (bus_step-inboxes c b, ← bus_step-output c b, run_bus-run_spec cs (bus_step c b).1)
