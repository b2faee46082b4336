-- ===== src/Protocols/Subscribe/Cancelling.antt =====
-- How a subscriber of SubscribeNotify.hpp leaves its publisher.
use g_agent.Base.{
  ℕ, [], ◌∷◌, ◌++◌, true, false, Option, none, some, if◌then◌else◌, ◌==◌, string_key, ◌≡◌, refl,
  eq_iff, arith, ◌∙◌, ap, Bool-cases, inl, inr, ==_refl,
}
use g_agent.Core.Behaviour.{Methods, run_loop, run_loop-last, run_loop-more}
use g_agent.Messaging.Message.{AclMessage, agent_id, cancel}
use g_agent.Messaging.Transport.{Mailbox, front, behind}
use g_agent.Messaging.Mailboxes.{send_here, send_elsewhere}
use g_agent.Protocols.World.{ClockWorld}
use g_agent.Protocols.Subscribe.{
  SubscribeState, wait_notify, wait_cancel_ack, Subscriber, SubscriberCallbacks, cancel_message,
  on_last, await_notify, await_cancel_ack, act_in, action, subscriber_methods,
}

-- The program's memory after the last message, if it is of the conversation.
abbrev pub last_word : {A : Type 0} → SubscriberCallbacks A → Subscriber → Option AclMessage → A → A
last_word on i none a = a
last_word on i (some m) a = if m.conversation_id == i.conv_id then on.handle_notify m a else a

-- The CANCEL of a subscriber, written out.
abbrev pub goodbye : Subscriber → AclMessage
goodbye i = record {
  performative = cancel;
  sender = agent_id i.my_name;
  receivers = [];
  content = "";
  language = "";
  encoding = "";
  ontology = "";
  protocol = "fipa-subscribe";
  conversation_id = i.conv_id;
  reply_with = "";
  in_reply_to = "";
}

module _ {A S : Type 0} (box : Mailbox S) (clock : ℕ → ℕ) (on : SubscriberCallbacks A) where
  open box use {transport, inbox, receive-front, inbox-receive}

  abbrev Side : Type 0
  Side = Subscriber × ClockWorld A S

  abbrev looping : Methods Side
  looping = subscriber_methods transport clock on

  act_of :
      (q : SubscribeState) (i : Subscriber) (w : ClockWorld A S)
      → i.state ≡ q
      → action transport clock on (i, w) ≡ act_in transport clock on q i w
  unfolding action
  act_of q i w e = ap (λ r. act_in transport clock on r i w) e

  on_last-last_word :
      (o : Option AclMessage) (i : Subscriber) (w : ClockWorld A S)
      → on_last transport clock on o i w ≡ record w { app = last_word on i o w.app }
  on_last-last_word none i w = refl
  on_last-last_word (some m) i w = elim (Bool-cases (m.conversation_id == i.conv_id)) [
    | inl e ↦ rw e
    | inr e ↦ rw e
  ]

  abbrev leaving : Subscriber → Subscriber
  leaving i = record i { state = wait_cancel_ack }

  abbrev told : Subscriber → S → S
  told i s = (transport.send i.publisher (cancel_message i) s).1

  says_cancel :
      (i : Subscriber) (w : ClockWorld A S)
      → i.state ≡ wait_notify
      → (on.should_cancel w.app).0 ≡ true
      → action transport clock on (i, w)
        ≡ (leaving i, record w { app = (on.should_cancel w.app).1; net = told i w.net })
  unfolding act_in await_notify
  says_cancel i w e h = act_of wait_notify i w e ∙ rw h

  hears_last :
      (i : Subscriber) (w : ClockWorld A S)
      → i.state ≡ wait_cancel_ack
      → action transport clock on (i, w) ≡ (
        record i { is_done = true },
        record w {
          app = last_word on i (front (inbox i.my_name w.net)) w.app;
          net = (transport.receive i.my_name 2000 w.net).1;
        },
      )
  unfolding act_in await_cancel_ack
  hears_last i w e =
      let left = (transport.receive i.my_name 2000 w.net).1 in
      act_of wait_cancel_ack i w e
      ∙ (ap (λ x. (record i { is_done = true }, x))
            (on_last-last_word (transport.receive i.my_name 2000 w.net).0 i
              (record w { net = left }))
          ∙ ap
              (λ o. (
                record i { is_done = true },
                record w { app = last_word on i o w.app; net = left },
              ))
              (receive-front i.my_name 2000 w.net))

  -- Over any transport with the laws of a mailbox, a subscriber that is being notified, and whose
  -- program asks to cancel, ends its loop in two turns. The publisher, which has another name, has one
  -- CANCEL with the conversation of the subscription behind what waited for it. The subscriber has
  -- taken at most one more message, the next one in its queue, and its program has been notified of it
  -- if it is of the conversation.
  pub cancelling_ends :
      (i : Subscriber) (w : ClockWorld A S)
      → i.state ≡ wait_notify
      → i.is_done ≡ false
      → (i.publisher == i.my_name) ≡ false
      → (on.should_cancel w.app).0 ≡ true
      → (s' : S) × (run_loop 2 (subscriber_methods transport clock on) (i, w)
          ≡ some (
            record i { state = wait_cancel_ack; is_done = true },
            record w {
              app = last_word on i (front (inbox i.my_name w.net)) (on.should_cancel w.app).1;
              net = s';
            },
          ))
        × (inbox i.publisher s' ≡ inbox i.publisher w.net ++ goodbye i ∷ [])
        × (inbox i.my_name s' ≡ behind (inbox i.my_name w.net))
  unfolding run_loop cancel_message
  cancelling_ends i w e going apart h =
      let s1 = told i w.net in
      let a1 = (on.should_cancel w.app).1 in
      let x1 : Side = (leaving i, record w { app = a1; net = s1 }) in
      let mine : inbox i.my_name s1 ≡ inbox i.my_name w.net =
        send_elsewhere box i.publisher i.my_name (cancel_message i) w.net apart in
      let apart' : (i.my_name == i.publisher) ≡ false =
        ground (arith, eq_iff i.my_name i.publisher, eq_iff i.publisher i.my_name) in
      let last_turn = hears_last (leaving i) (record w { app = a1; net = s1 }) refl in
      (
        (transport.receive i.my_name 2000 s1).1,
        run_loop-more 1 looping (i, w)
              (ap (λ x. (x.0.is_done, x)) (says_cancel i w e h) ∙ λ k. (going k, x1))
            ∙ (run_loop-last 0 looping x1 (ap (λ x. (x.0.is_done, x)) last_turn)
                ∙ ap
                    (λ l. some (
                      record i { state = wait_cancel_ack; is_done = true },
                      record w {
                        app = last_word on i (front l) a1;
                        net = (transport.receive i.my_name 2000 s1).1;
                      },
                    ))
                    mine),
        inbox-receive i.my_name i.publisher 2000 s1
            ∙ (rw apart' (send_here box i.publisher (cancel_message i) w.net)),
        inbox-receive i.my_name i.my_name 2000 s1 ∙ (rw (==_refl i.my_name) (ap behind mine)),
      )
