-- ===== src/Protocols/Request.antt =====
-- Request.hpp. The virtual functions that a program overrides are fields of a record of functions
-- on the program's own memory `A`; the network is the state `S` of a transport.
pub mod Reading
pub mod Session
use Prim.Native.String.{◌++◌}
use g_agent.Base.{
  ℕ, String, List, [], ◌∷◌, Bool, true, false, Option, none, some, if◌then◌else◌, ◌==◌, string_key,
  is_empty, pos,
}
use g_agent.Core.Behaviour.{Methods}
use g_agent.Messaging.Message.{
  AclMessage, acl_message, agent_id, Performative, request, agree, inform, refuse, failure,
  not_understood, create_reply,
}
use g_agent.Messaging.Transport.{Transport}
use g_agent.Protocols.World.{World}

pub data RequestState : Type 0 where
  send_request wait_response : RequestState

pub record RequestInitiator : Type 0 where
  pub my_name : String
  pub target : String
  pub content : String
  pub ontology : String
  pub conv_id : String
  pub timeout_ms : ℕ
  pub state : RequestState
  pub is_done : Bool

-- The callbacks of `RequestInitiator`.
pub record InitiatorCallbacks (A : Type 0) : Type 0 where
  pub handle_agree : AclMessage → A → A
  pub handle_inform : AclMessage → A → A
  pub handle_refuse : AclMessage → A → A
  pub handle_failure : AclMessage → A → A
  pub handle_not_understood : AclMessage → A → A
  pub handle_timeout : A → A

-- The constructor; `pid` is the text of `getpid()`.
unfoldable pub new_initiator : String → String → String → String → ℕ → String → RequestInitiator
new_initiator my_name target content ontology timeout_ms pid = record {
  my_name = my_name;
  target = target;
  content = content;
  ontology = ontology;
  conv_id = "req-" ++ my_name ++ "-" ++ pid;
  timeout_ms = timeout_ms;
  state = send_request;
  is_done = false;
}

-- The message of the state SEND_REQUEST.
unfoldable pub request_message : RequestInitiator → AclMessage
request_message i = record (acl_message request) {
  sender = agent_id i.my_name;
  receivers = agent_id i.target ∷ [];
  content = i.content;
  conversation_id = i.conv_id;
  ontology = if i.ontology == "" then "" else i.ontology;
  protocol = "fipa-request";
}

module _ {A S : Type 0} (net : Transport S) (on : InitiatorCallbacks A) where
  abbrev finish : (A → A) → RequestInitiator → World A S → RequestInitiator × World A S
  finish f i w = (record i { is_done = true }, record w { app = f w.app })

  -- The switch on the performative of a message of this conversation.
  unfoldable pub on_reply :
      Performative → AclMessage → RequestInitiator → World A S → RequestInitiator × World A S
  on_reply agree m i w = (i, record w { app = on.handle_agree m w.app })
  on_reply inform m i w = finish (on.handle_inform m) i w
  on_reply refuse m i w = finish (on.handle_refuse m) i w
  on_reply failure m i w = finish (on.handle_failure m) i w
  on_reply not_understood m i w = finish (on.handle_not_understood m) i w
  on_reply _ m i w = (i, w)

  abbrev pub on_received :
      Option AclMessage → RequestInitiator → World A S → RequestInitiator × World A S
  on_received none i w = finish on.handle_timeout i w
  on_received (some m) i w =
      if m.conversation_id == i.conv_id then on_reply m.performative m i w else (i, w)

  abbrev pub act_in : RequestState → RequestInitiator → World A S → RequestInitiator × World A S
  act_in send_request i w = (
    record i { state = wait_response },
    record w { net = (net.send i.target (request_message i) w.net).1 },
  )
  act_in wait_response i w =
      let (opt, net') = net.receive i.my_name i.timeout_ms w.net in
      on_received opt i (record w { net = net' })

  unfoldable pub initiator_action : RequestInitiator × World A S → RequestInitiator × World A S
  unfolding on_reply
  initiator_action (i, w) = act_in i.state i w

  abbrev pub initiator_methods : Methods (RequestInitiator × World A S)
  initiator_methods = record {
    on_start = λ x. (x.0, record (x.1) { net = (net.bind x.0.my_name x.1.net).1 });
    action = initiator_action;
    done = λ x. (x.0.is_done, x);
    on_end = λ x. x;
    exit_value = λ x. pos 0;
  }

pub record RequestParticipant : Type 0 where
  pub my_name : String
  pub tick_ms : ℕ

-- The callbacks of `RequestParticipant`.
pub record ParticipantCallbacks (A : Type 0) : Type 0 where
  pub prepare_agree : AclMessage → A → Bool × A
  pub handle_request : AclMessage → A → AclMessage × A

-- `handleRequest` where a program does not override it.
unfoldable pub default_handle_request : RequestParticipant → AclMessage → AclMessage
default_handle_request p m = record (create_reply inform m) { sender = agent_id p.my_name }

-- What `action` adds to a response that lacks it.
unfoldable pub complete_response : RequestParticipant → AclMessage → AclMessage → AclMessage
complete_response p m r = record r {
  receivers = if is_empty r.receivers then m.sender ∷ [] else r.receivers;
  sender = if r.sender.name == "" then agent_id p.my_name else r.sender;
  conversation_id = if r.conversation_id == "" then m.conversation_id else r.conversation_id;
}

unfoldable pub agree_message : RequestParticipant → AclMessage → AclMessage
agree_message p m = record (create_reply agree m) { sender = agent_id p.my_name }

module _ {A S : Type 0} (net : Transport S) (on : ParticipantCallbacks A) where
  unfoldable pub send_agree : Bool → RequestParticipant → AclMessage → S → S
  send_agree false p m s = s
  send_agree true p m s = (net.send m.sender.name (agree_message p m) s).1

  unfoldable pub answer : RequestParticipant → AclMessage → World A S → World A S
  unfolding send_agree
  answer p m w =
      let (wants, app1) = on.prepare_agree m w.app in
      let net1 = send_agree wants p m w.net in
      let (r, app2) = on.handle_request m app1 in
      record { app = app2; net = (net.send m.sender.name (complete_response p m r) net1).1 }

  -- A message that is no REQUEST is dropped.
  unfoldable pub answer_request :
      Performative → RequestParticipant → AclMessage → World A S → World A S
  answer_request request p m w = answer p m w
  answer_request _ p m w = w

  abbrev pub on_message : Option AclMessage → RequestParticipant → World A S → World A S
  on_message none p w = w
  on_message (some m) p w = answer_request m.performative p m w

  unfoldable pub participant_action :
      RequestParticipant × World A S → RequestParticipant × World A S
  unfolding answer_request
  participant_action (p, w) =
      let (opt, net') = net.receive p.my_name p.tick_ms w.net in
      (p, on_message opt p (record w { net = net' }))

  abbrev pub participant_methods : Methods (RequestParticipant × World A S)
  participant_methods = record {
    on_start = λ x. (x.0, record (x.1) { net = (net.bind x.0.my_name x.1.net).1 });
    action = participant_action;
    done = λ x. (false, x);
    on_end = λ x. x;
    exit_value = λ x. pos 0;
  }
