-- ===== src/Protocols/Subscribe/Publisher/Letters.antt =====
-- The messages of the publisher of SubscribeNotify.hpp, written out, and what `notify` sends.
use g_agent.Base.{
  same_text, refl, String, List, [], ◌∷◌, ◌++◌, Bool, Option, none, some, if◌then◌else◌, ◌==◌,
  string_key, Map, lookup, ◌≡◌, sym, ap, ◌∙◌, eq_iff, append-nil, Bool-cases, inl, inr, IsDistinct,
  Fresh-lookup, subst,
}
use g_agent.Messaging.Message.{
  AclMessage, Performative, subscribe, cancel, agree, refuse, inform, agent_id, create_reply,
}
use g_agent.Messaging.Transport.{Mailbox}
use g_agent.Protocols.Subscribe.Publisher.{
  Subscription, Publisher, reply_to, notice, notify, notify_each,
}

-- What `notify` has for an agent, every field written out.
abbrev pub news : String → String → String → Subscription → AclMessage
news my_name content ontology sub = record {
  performative = inform;
  sender = agent_id my_name;
  receivers = [];
  content = content;
  language = "";
  encoding = "";
  ontology = ontology;
  protocol = "fipa-subscribe";
  conversation_id = sub.conv_id;
  reply_with = "";
  in_reply_to = "";
}

abbrev pub notices : String → String → String → Option Subscription → List AclMessage
notices my_name content ontology none = []
notices my_name content ontology (some sub) = news my_name content ontology sub ∷ []

-- What the publisher answers to a message: to a SUBSCRIBE its AGREE or REFUSE, with the protocol, the
-- conversation, the language and the ontology of the message and the reference to it.
abbrev pub assent : Performative → String → AclMessage → AclMessage
assent q my_name m = record {
  performative = q;
  sender = agent_id my_name;
  receivers = m.sender ∷ [];
  content = "";
  language = m.language;
  encoding = "";
  ontology = m.ontology;
  protocol = "fipa-subscribe";
  conversation_id = m.conversation_id;
  reply_with = "";
  in_reply_to = m.reply_with;
}

-- To a CANCEL the last text of the program, if there is one; to any other message nothing.
abbrev pub answers : Bool → String → Performative → String → AclMessage → List AclMessage
answers accepts text subscribe my_name m = assent (if accepts then agree else refuse) my_name m ∷ []
answers accepts text cancel my_name m =
    if text == "" then [] else news my_name text "" (record { conv_id = m.conversation_id }) ∷ []
answers accepts text _ my_name m = []

notice-news :
    (my_name content ontology : String) (sub : Subscription)
    → notice my_name content ontology sub ≡ news my_name content ontology sub
unfolding notice
notice-news my_name content ontology sub = rw (same_text ontology) refl

pub reply_to-assent :
    (q : Performative) (p : Publisher) (m : AclMessage) → reply_to q p m ≡ assent q p.my_name m
unfolding reply_to create_reply
reply_to-assent q p m = rw (same_text m.reply_with) refl

module _ {S : Type 0} (box : Mailbox S) where
  open box use {transport, inbox, inbox-send}

  notify_each-inbox :
      (my_name content ontology k : String) (subs : Map String Subscription) (s : S)
      → IsDistinct subs
      → inbox k (notify_each transport my_name content ontology subs s)
        ≡ inbox k s ++ notices my_name content ontology (lookup k subs)
  unfolding notify_each lookup
  notify_each-inbox my_name content ontology k [] s h = sym (append-nil (inbox k s))
  notify_each-inbox my_name content ontology k ((n, sub) ∷ subs) s h =
      let m = notice my_name content ontology sub in
      let written = notice-news my_name content ontology sub in
      let sent = inbox-send n k m s in
      let later = notify_each-inbox my_name content ontology k subs (transport.send n m s).1 h.1 in
      elim (Bool-cases (n == k)) [
        | inl e ↦
            let here : inbox k (transport.send n m s).1
                ≡ inbox k s ++ news my_name content ontology sub ∷ [] =
              sent ∙ rw e (ap (λ q. inbox k s ++ q ∷ []) written) in
            let alone : lookup k subs ≡ none =
              subst (λ c. lookup c subs ≡ none) ((eq_iff n k).0 e) (Fresh-lookup n subs h.0) in
            later
            ∙ (ap (λ o. inbox k (transport.send n m s).1 ++ notices my_name content ontology o)
                  alone
                ∙ (append-nil (inbox k (transport.send n m s).1) ∙ (here ∙ rw e)))
        | inr e ↦
            let here : inbox k (transport.send n m s).1 ≡ inbox k s = sent ∙ rw e in
            later ∙ (ap (λ l. l ++ notices my_name content ontology (lookup k subs)) here ∙ rw e)
      ]

  pub notify-inbox :
      (content ontology k : String) (p : Publisher) (s : S)
      → IsDistinct p.subscribers
      → inbox k (notify transport content ontology p s)
        ≡ inbox k s ++ notices p.my_name content ontology (lookup k p.subscribers)
  unfolding notify
  notify-inbox content ontology k p s h =
      notify_each-inbox p.my_name content ontology k p.subscribers s h
