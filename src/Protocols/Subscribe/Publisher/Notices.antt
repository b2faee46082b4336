-- ===== src/Protocols/Subscribe/Publisher/Notices.antt =====
-- Who is told what by the publisher of SubscribeNotify.hpp.
use g_agent.Base.{
  true, false, refl, String, List, [], ◌∷◌, ◌++◌, Bool, Option, none, some, if◌then◌else◌, ◌==◌,
  string_key, lookup, ◌≡◌, sym, ap, ◌∙◌, arith, eq_iff, append-nil, Bool-cases, inl, inr,
  IsDistinct, subst, lookup-insert, lookup-erase, IsDistinct-insert, IsDistinct-erase,
}
use g_agent.Messaging.Message.{AclMessage, Performative, subscribe, cancel, agree, refuse}
use g_agent.Messaging.Transport.{Mailbox}
use g_agent.Messaging.Mailboxes.{receive_waiting}
use g_agent.Protocols.World.{World}
use g_agent.Protocols.Subscribe.Publisher.{
  Subscription, Publisher, PublisherCallbacks, last_notice, notify, on_subscribe, on_cancel,
  on_performative, publisher_action,
}
use g_agent.Protocols.Subscribe.Publisher.Letters.{notices, answers, reply_to-assent, notify-inbox}

-- The subscription of an agent after a message from it: `accepts` is the answer of the program.
abbrev pub after_message : Bool → Performative → String → Option Subscription → Option Subscription
after_message accepts subscribe conv o = if accepts then some (record { conv_id = conv }) else o
after_message accepts cancel conv o = none
after_message accepts _ conv o = o

module _ {A S : Type 0} (box : Mailbox S) (on : PublisherCallbacks A) where
  open box use {transport, inbox, inbox-send}

  on_performative-subscribers :
      (q : Performative) (m : AclMessage) (p : Publisher) (w : World A S) (k : String)
      → IsDistinct p.subscribers
      → IsDistinct (on_performative transport on q m p w).0.subscribers
        × (lookup k (on_performative transport on q m p w).0.subscribers ≡ (
            if m.sender.name == k
            then after_message
                (on.handle_subscribe m w.app).0
                q
                m.conversation_id
                (lookup k p.subscribers)
            else lookup k p.subscribers))
  unfolding on_performative on_subscribe on_cancel
  on_performative-subscribers subscribe m p w k h =
      elim (Bool-cases (on.handle_subscribe m w.app).0) [
        | inl e ↦ rw e (
          IsDistinct-insert m.sender.name (record { conv_id = m.conversation_id }) p.subscribers h,
          lookup-insert m.sender.name k (record { conv_id = m.conversation_id }) p.subscribers,
        )
        | inr e ↦ rw e (h, ground arith)
      ]
  on_performative-subscribers cancel m p w k h =
      (IsDistinct-erase m.sender.name p.subscribers h, lookup-erase m.sender.name k p.subscribers)
  on_performative-subscribers _ m p w k h = (h, ground arith)

  publisher_action-subscribers :
      (p : Publisher) (w : World A S) (m : AclMessage) (rest : List AclMessage) (k : String)
      → inbox p.my_name w.net ≡ m ∷ rest
      → IsDistinct p.subscribers
      → IsDistinct (publisher_action transport on (p, w)).0.subscribers
        × (lookup k (publisher_action transport on (p, w)).0.subscribers ≡ (
            if m.sender.name == k
            then after_message
                (on.handle_subscribe m w.app).0
                m.performative
                m.conversation_id
                (lookup k p.subscribers)
            else lookup k p.subscribers))
  unfolding publisher_action
  publisher_action-subscribers p w m rest k here h =
      let (s', got, left, others) = receive_waiting box p.my_name p.poll_ms w.net m rest here in
      rw got (on_performative-subscribers m.performative m p (record w { net = s' }) k h)

  -- A message to `n` that is as the other, for `k`.
  send-one :
      (n k : String) (m q : AclMessage) (s : S)
      → m ≡ q
      → inbox k (transport.send n m s).1 ≡ inbox k s ++ (if n == k then q ∷ [] else [])
  send-one n k m q s same = inbox-send n k m s ∙ elim (Bool-cases (n == k)) [
    | inl e ↦ rw e (ap (λ l. inbox k s ++ l ∷ []) same)
    | inr e ↦ rw e (sym (append-nil (inbox k s)))
  ]

  nothing_sent : (b : Bool) (l : List AclMessage) → l ≡ l ++ (if b then [] else [])
  nothing_sent true l = sym (append-nil l)
  nothing_sent false l = sym (append-nil l)

  on_performative-inbox :
      (q : Performative) (m : AclMessage) (p : Publisher) (w : World A S) (k : String)
      → inbox k (on_performative transport on q m p w).1.net
        ≡ inbox k w.net
          ++ (if m.sender.name == k
              then answers
                  (on.handle_subscribe m w.app).0
                  (on.handle_cancel m.sender.name w.app).0
                  q
                  p.my_name
                  m
              else [])
  unfolding on_performative on_subscribe on_cancel last_notice
  on_performative-inbox subscribe m p w k = elim (Bool-cases (on.handle_subscribe m w.app).0) [
    | inl e ↦ rw e (send-one m.sender.name k _ _ w.net (reply_to-assent agree p m))
    | inr e ↦ rw e (send-one m.sender.name k _ _ w.net (reply_to-assent refuse p m))
  ]
  on_performative-inbox cancel m p w k =
      elim (Bool-cases ((on.handle_cancel m.sender.name w.app).0 == "")) [
        | inl e ↦ rw e (nothing_sent (m.sender.name == k) (inbox k w.net))
        | inr e ↦ rw e (send-one m.sender.name k _ _ w.net refl)
      ]
  on_performative-inbox _ m p w k = nothing_sent (m.sender.name == k) (inbox k w.net)

  publisher_action-inbox :
      (p : Publisher) (w : World A S) (m : AclMessage) (rest : List AclMessage) (k : String)
      → inbox p.my_name w.net ≡ m ∷ rest
      → inbox k (publisher_action transport on (p, w)).1.net
        ≡ (if p.my_name == k then rest else inbox k w.net)
          ++ (if m.sender.name == k
              then answers
                  (on.handle_subscribe m w.app).0
                  (on.handle_cancel m.sender.name w.app).0
                  m.performative
                  p.my_name
                  m
              else [])
  unfolding publisher_action
  publisher_action-inbox p w m rest k here =
      let (s', got, left, others) = receive_waiting box p.my_name p.poll_ms w.net m rest here in
      let told = on_performative-inbox m.performative m p (record w { net = s' }) k in
      let kept : inbox k s' ≡ (if p.my_name == k then rest else inbox k w.net) =
        elim (Bool-cases (p.my_name == k)) [
          | inl e ↦ rw e (subst (λ n. inbox n s' ≡ rest) ((eq_iff p.my_name k).0 e) left)
          | inr e ↦ rw e (others k e)
        ] in
      rw got (
        told
        ∙ ap
            (λ l.
              l
              ++ (if m.sender.name == k
                  then answers (on.handle_subscribe m w.app).0
                      (on.handle_cancel m.sender.name w.app).0 m.performative p.my_name m
                  else []))
            kept)

  -- What an agent is told when a publisher takes the next message of its queue and then notifies: over
  -- any transport with the laws of a mailbox, the sender alone is answered, an accepted SUBSCRIBE by one
  -- AGREE and a refused one by one REFUSE, both to it and with the conversation of the message, a CANCEL
  -- by the last text of the program if it has one, any other message not at all. `notify` then puts one
  -- INFORM with the content and the conversation of its subscription behind what waits for a subscriber,
  -- and nothing for any other agent. Only the sender's subscription
  -- is another than before the message: an accepted SUBSCRIBE enters it under the conversation of the
  -- message, a CANCEL removes it, and a refused SUBSCRIBE or any other message leaves it. The
  -- subscribers were listed once each before the message, and still are.
  pub notify-publisher_action :
      (p : Publisher) (w : World A S) (m : AclMessage) (rest : List AclMessage)
      (content ontology k : String)
      → inbox p.my_name w.net ≡ m ∷ rest
      → IsDistinct p.subscribers
      → let (p', w') = publisher_action transport on (p, w) in
        IsDistinct p'.subscribers
        × (inbox k w'.net
            ≡ (if p.my_name == k then rest else inbox k w.net)
              ++ (if m.sender.name == k
                  then answers
                      (on.handle_subscribe m w.app).0
                      (on.handle_cancel m.sender.name w.app).0
                      m.performative
                      p.my_name
                      m
                  else []))
        × (inbox k (notify transport content ontology p' w'.net)
            ≡ inbox k w'.net
              ++ notices p'.my_name content ontology (
                  if m.sender.name == k
                  then after_message
                      (on.handle_subscribe m w.app).0
                      m.performative
                      m.conversation_id
                      (lookup k p.subscribers)
                  else lookup k p.subscribers))
  notify-publisher_action p w m rest content ontology k here h =
      let (p', w') = publisher_action transport on (p, w) in
      let (listed, now) = publisher_action-subscribers p w m rest k here h in
      (
        listed,
        publisher_action-inbox p w m rest k here,
        notify-inbox box content ontology k p' w'.net listed
            ∙ ap (λ o. inbox k w'.net ++ notices p'.my_name content ontology o) now,
      )
