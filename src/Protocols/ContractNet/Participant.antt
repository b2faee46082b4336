-- ===== src/Protocols/ContractNet/Participant.antt =====
-- `ContractNetParticipant` of ContractNet.hpp.
pub mod Task
use g_agent.Base.{ℕ, String, Bool, true, Option, none, some, if◌then◌else◌, ◌==◌, string_key, pos}
use g_agent.Core.Behaviour.{Methods}
use g_agent.Messaging.Message.{
  AclMessage, agent_id, Performative, cfp, refuse, accept_proposal, reject_proposal,
}
use g_agent.Messaging.Transport.{Transport}
use g_agent.Protocols.World.{World}

pub data OfferState : Type 0 where
  wait_cfp wait_decision : OfferState

pub record Participant : Type 0 where
  pub my_name : String
  pub timeout_ms : ℕ
  pub state : OfferState
  pub is_done : Bool
  pub conv_id : String
  pub initiator : String

pub record ParticipantCallbacks (A : Type 0) : Type 0 where
  pub prepare_proposal : AclMessage → A → AclMessage × A
  pub execute_task : AclMessage → A → AclMessage × A

-- What `action` sets in the response to the call and in the result.
unfoldable pub address_reply : Participant → String → AclMessage → AclMessage → AclMessage
address_reply p conv m r = record r {
  sender = agent_id p.my_name;
  conversation_id = conv;
  in_reply_to = m.reply_with;
}

-- The participant after its response: a refusal ends it.
abbrev pub after_offer : Performative → AclMessage → Participant → Participant
after_offer refuse m p = record p { is_done = true }
after_offer _ m p = record p {
  conv_id = m.conversation_id;
  initiator = m.sender.name;
  state = wait_decision;
}

module _ {A S : Type 0} (net : Transport S) (on : ParticipantCallbacks A) where
  -- A message that is no CFP is dropped.
  unfoldable pub on_call :
      Performative → AclMessage → Participant → World A S → Participant × World A S
  on_call cfp m p w =
      let (r, app') = on.prepare_proposal m w.app in
      (
        after_offer r.performative m p,
        record {
          app = app';
          net = (net.send m.sender.name (address_reply p m.conversation_id m r) w.net).1;
        },
      )
  on_call _ m p w = (p, w)

  unfoldable pub on_decision :
      Performative → AclMessage → Participant → World A S → Participant × World A S
  on_decision accept_proposal m p w =
      let (r, app') = on.execute_task m w.app in
      (
        record p { is_done = true },
        record { app = app'; net = (net.send p.initiator (address_reply p p.conv_id m r) w.net).1 },
      )
  on_decision reject_proposal m p w = (record p { is_done = true }, w)
  on_decision _ m p w = (p, w)

  abbrev pub on_message :
      OfferState → Option AclMessage → Participant → World A S → Participant × World A S
  on_message state none p w = (record p { is_done = true }, w)
  on_message wait_cfp (some m) p w = on_call m.performative m p w
  on_message wait_decision (some m) p w =
      if m.conversation_id == p.conv_id then on_decision m.performative m p w else (p, w)

  unfoldable pub participant_action : Participant × World A S → Participant × World A S
  unfolding on_call on_decision
  participant_action (p, w) =
      let (opt, net') = net.receive p.my_name p.timeout_ms w.net in
      on_message p.state opt p (record w { net = net' })

  abbrev pub participant_methods : Methods (Participant × World A S)
  participant_methods = record {
    on_start = λ x. (x.0, record (x.1) { net = (net.bind x.0.my_name x.1.net).1 });
    action = participant_action;
    done = λ x. (x.0.is_done, x);
    on_end = λ x. x;
    exit_value = λ x. pos 0;
  }
