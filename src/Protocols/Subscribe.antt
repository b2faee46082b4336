-- ===== src/Protocols/Subscribe.antt =====
-- `SubscribeInitiator` of SubscribeNotify.hpp. The virtual functions that a program overrides are
-- fields of a record of functions on the program's own memory `A`; the network is the state `S` of a
-- transport; `clock k` is the k-th reading of the steady clock, in nanoseconds.
pub mod Publisher
pub mod Cancelling
use Prim.Native.String.{◌++◌}
use g_agent.Base.{
  ℕ, suc, ◌+◌, ◌%◌, String, Bool, true, false, ◌&&◌, Option, none, some, if◌then◌else◌, ◌==◌,
  string_key, leb, pos,
}
use g_agent.Core.Behaviour.{Methods}
use g_agent.Messaging.Message.{
  AclMessage, acl_message, agent_id, Performative, subscribe, agree, refuse, not_understood, inform,
  cancel,
}
use g_agent.Messaging.Transport.{Transport}
use g_agent.Platform.Input.{decimal}
use g_agent.Protocols.World.{ClockWorld}
use g_agent.Protocols.ContractNet.{ms, slice}

pub data SubscribeState : Type 0 where
  send_subscribe wait_agree wait_notify wait_cancel_ack : SubscribeState

pub record Subscriber : Type 0 where
  pub my_name : String
  pub publisher : String
  pub topic : String
  pub ontology : String
  pub agree_timeout : ℕ
  pub state : SubscribeState
  pub is_done : Bool
  pub conv_id : String
  pub deadline : ℕ

-- The constructor, with the values of the class for the fields that it does not set.
unfoldable pub new_subscriber : String → String → String → String → ℕ → Subscriber
new_subscriber my_name publisher topic ontology agree_timeout = record {
  my_name = my_name;
  publisher = publisher;
  topic = topic;
  ontology = ontology;
  agree_timeout = agree_timeout;
  state = send_subscribe;
  is_done = false;
  conv_id = "";
  deadline = 0;
}

pub record SubscriberCallbacks (A : Type 0) : Type 0 where
  pub handle_notify : AclMessage → A → A
  pub handle_refuse : AclMessage → A → A
  pub should_cancel : A → Bool × A

unfoldable pub subscribe_message : Subscriber → String → AclMessage
subscribe_message i conv = record (acl_message subscribe) {
  sender = agent_id i.my_name;
  content = i.topic;
  ontology = if i.ontology == "" then "" else i.ontology;
  conversation_id = conv;
  reply_with = "sub-" ++ conv;
  protocol = "fipa-subscribe";
}

unfoldable pub cancel_message : Subscriber → AclMessage
cancel_message i = record (acl_message cancel) {
  sender = agent_id i.my_name;
  conversation_id = i.conv_id;
  protocol = "fipa-subscribe";
}

module _ {A S : Type 0} (net : Transport S) (clock : ℕ → ℕ) (on : SubscriberCallbacks A) where
  unfoldable pub start_subscription : Subscriber → ClockWorld A S → Subscriber × ClockWorld A S
  start_subscription i w =
      let conv = "snp-" ++ i.my_name ++ "-" ++ decimal (clock w.reads % 100_000) in
      (
        record i {
          conv_id = conv;
          deadline = clock (suc w.reads) + ms i.agree_timeout;
          state = wait_agree;
        },
        record w {
          net = (net.send i.publisher (subscribe_message i conv) w.net).1;
          reads = suc (suc w.reads);
        },
      )

  unfoldable pub on_agree :
      Performative → AclMessage → Subscriber → ClockWorld A S → Subscriber × ClockWorld A S
  on_agree agree m i w = (record i { state = wait_notify }, w)
  on_agree refuse m i w = (record i { is_done = true }, record w { app = on.handle_refuse m w.app })
  on_agree not_understood m i w =
      (record i { is_done = true }, record w { app = on.handle_refuse m w.app })
  on_agree _ m i w = (i, w)

  abbrev pub on_answer :
      Option AclMessage → Subscriber → ClockWorld A S → Subscriber × ClockWorld A S
  on_answer none i w = (i, w)
  on_answer (some m) i w =
      if m.conversation_id == i.conv_id then on_agree m.performative m i w else (i, w)

  unfoldable pub await_agree : Subscriber → ClockWorld A S → Subscriber × ClockWorld A S
  unfolding on_agree
  await_agree i w =
      let now = clock w.reads in
      let w1 = record w { reads = suc w.reads } in
      let (opt, net') = net.receive i.my_name (slice i.deadline now) w.net in
      if leb i.deadline now
      then (record i { is_done = true }, w1)
      else on_answer opt i (record w1 { net = net' })

  abbrev pub notify_with : AclMessage → ClockWorld A S → ClockWorld A S
  notify_with m w = record w { app = on.handle_notify m w.app }

  unfoldable pub on_notice : Performative → AclMessage → ClockWorld A S → ClockWorld A S
  on_notice inform m w = notify_with m w
  on_notice _ m w = w

  abbrev pub on_notified : Option AclMessage → Subscriber → ClockWorld A S → ClockWorld A S
  on_notified none i w = w
  on_notified (some m) i w =
      if m.conversation_id == i.conv_id then on_notice m.performative m w else w

  unfoldable pub await_notify : Subscriber → ClockWorld A S → Subscriber × ClockWorld A S
  unfolding on_notice
  await_notify i w =
      let (stop, app') = on.should_cancel w.app in
      let w1 = record w { app = app' } in
      let (opt, net') = net.receive i.my_name 300 w.net in
      if stop
      then (
        record i { state = wait_cancel_ack },
        record w1 { net = (net.send i.publisher (cancel_message i) w.net).1 },
      )
      else (i, on_notified opt i (record w1 { net = net' }))

  abbrev pub on_last : Option AclMessage → Subscriber → ClockWorld A S → ClockWorld A S
  on_last none i w = w
  on_last (some m) i w = if m.conversation_id == i.conv_id then notify_with m w else w

  unfoldable pub await_cancel_ack : Subscriber → ClockWorld A S → Subscriber × ClockWorld A S
  await_cancel_ack i w =
      let (opt, net') = net.receive i.my_name 2000 w.net in
      (record i { is_done = true }, on_last opt i (record w { net = net' }))

  unfoldable pub act_in : SubscribeState → Subscriber → ClockWorld A S → Subscriber × ClockWorld A S
  act_in send_subscribe i w = start_subscription i w
  act_in wait_agree i w = await_agree i w
  act_in wait_notify i w = await_notify i w
  act_in wait_cancel_ack i w = await_cancel_ack i w

  unfoldable pub action : Subscriber × ClockWorld A S → Subscriber × ClockWorld A S
  unfolding act_in
  action (i, w) = act_in i.state i w

  abbrev pub subscriber_methods : Methods (Subscriber × ClockWorld A S)
  subscriber_methods = record {
    on_start = λ x. (x.0, record (x.1) { net = (net.bind x.0.my_name x.1.net).1 });
    action = action;
    done = λ x. (x.0.is_done, x);
    on_end = λ x. x;
    exit_value = λ x. pos 0;
  }
