-- ===== src/Protocols/Subscribe/Publisher.antt =====
-- `SubscribeParticipant` of SubscribeNotify.hpp.
pub mod Letters
pub mod Notices
use g_agent.Base.{
  ℕ, String, List, [], ◌∷◌, Bool, true, false, Option, none, some, if◌then◌else◌, ◌==◌, string_key,
  Map, lookup, insert, erase, length, pos,
}
use g_agent.Core.Behaviour.{Methods}
use g_agent.Messaging.Message.{
  AclMessage, acl_message, agent_id, Performative, subscribe, agree, refuse, inform, cancel,
  create_reply,
}
use g_agent.Messaging.Transport.{Transport}
use g_agent.Protocols.World.{World}

pub record Subscription : Type 0 where
  pub conv_id : String

pub record Publisher : Type 0 where
  pub my_name : String
  pub poll_ms : ℕ
  pub subscribers : Map String Subscription

pub record PublisherCallbacks (A : Type 0) : Type 0 where
  pub handle_subscribe : AclMessage → A → Bool × A
  pub handle_cancel : String → A → String × A

-- The notice of `notify` and `notifyOne`.
unfoldable pub notice : String → String → String → Subscription → AclMessage
notice my_name content ontology sub = record (acl_message inform) {
  sender = agent_id my_name;
  content = content;
  conversation_id = sub.conv_id;
  protocol = "fipa-subscribe";
  ontology = if ontology == "" then "" else ontology;
}

-- `subscriberCount`
unfoldable pub subscriber_count : Publisher → ℕ
subscriber_count p = length p.subscribers

-- The reply to a SUBSCRIBE.
unfoldable pub reply_to : Performative → Publisher → AclMessage → AclMessage
reply_to q p m = record (create_reply q m) {
  sender = agent_id p.my_name;
  protocol = "fipa-subscribe";
}

-- The last notice to an agent that cancels.
unfoldable pub last_notice : Publisher → AclMessage → String → AclMessage
last_notice p m text = record (acl_message inform) {
  sender = agent_id p.my_name;
  content = text;
  conversation_id = m.conversation_id;
  protocol = "fipa-subscribe";
}

module _ {S : Type 0} (net : Transport S) where
  notify_each : String → String → String → Map String Subscription → S → S
  notify_each my_name content ontology [] s = s
  notify_each my_name content ontology ((n, sub) ∷ subs) s =
      notify_each my_name content ontology subs
        (net.send n (notice my_name content ontology sub) s).1

  unfoldable pub notify : String → String → Publisher → S → S
  unfolding notify_each
  notify content ontology p s = notify_each p.my_name content ontology p.subscribers s

  unfoldable pub notify_one : String → String → String → Publisher → S → S
  notify_one n content ontology p s = elim (lookup n p.subscribers) [
    | none ↦ s
    | some sub ↦ (net.send n (notice p.my_name content ontology sub) s).1
  ]

module _ {A S : Type 0} (net : Transport S) (on : PublisherCallbacks A) where
  unfoldable pub on_subscribe : AclMessage → Publisher → World A S → Publisher × World A S
  on_subscribe m p w =
      let (accepted, app') = on.handle_subscribe m w.app in
      if accepted
      then (
        record p {
          subscribers = insert m.sender.name (record { conv_id = m.conversation_id }) p.subscribers;
        },
        record { app = app'; net = (net.send m.sender.name (reply_to agree p m) w.net).1 },
      )
      else (p, record { app = app'; net = (net.send m.sender.name (reply_to refuse p m) w.net).1 })

  unfoldable pub on_cancel : AclMessage → Publisher → World A S → Publisher × World A S
  on_cancel m p w =
      let (text, app') = on.handle_cancel m.sender.name w.app in
      (
        record p { subscribers = erase m.sender.name p.subscribers },
        record {
          app = app';
          net =
              if text == "" then w.net else (net.send m.sender.name (last_notice p m text) w.net).1;
        },
      )

  unfoldable pub on_performative :
      Performative → AclMessage → Publisher → World A S → Publisher × World A S
  on_performative subscribe m p w = on_subscribe m p w
  on_performative cancel m p w = on_cancel m p w
  on_performative _ m p w = (p, w)

  abbrev pub on_message : Option AclMessage → Publisher → World A S → Publisher × World A S
  on_message none p w = (p, w)
  on_message (some m) p w = on_performative m.performative m p w

  unfoldable pub publisher_action : Publisher × World A S → Publisher × World A S
  unfolding on_performative
  publisher_action (p, w) =
      let (opt, net') = net.receive p.my_name p.poll_ms w.net in
      on_message opt p (record w { net = net' })

  -- The source overrides no `onStart` here.
  abbrev pub publisher_methods : Methods (Publisher × World A S)
  publisher_methods = record {
    on_start = λ x. x;
    action = publisher_action;
    done = λ x. (false, x);
    on_end = λ x. x;
    exit_value = λ x. pos 0;
  }
