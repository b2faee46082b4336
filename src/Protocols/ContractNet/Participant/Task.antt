-- ===== src/Protocols/ContractNet/Participant/Task.antt =====
-- A task that is offered, won and done by the participant of ContractNet.hpp.
use g_agent.Base.{
  String, [], ◌∷◌, ◌++◌, true, false, some, if◌then◌else◌, ◌==◌, string_key, ◌≡◌, refl, eq_iff,
  arith, ◌∙◌, ap, append_assoc,
}
use g_agent.Core.Behaviour.{Methods, run_loop, run_loop-last, run_loop-more}
use g_agent.Messaging.Message.{AclMessage, agent_id, cfp, propose, accept_proposal}
use g_agent.Messaging.Transport.{Mailbox}
use g_agent.Messaging.Mailboxes.{receive_waiting, send_here, send_elsewhere}
use g_agent.Protocols.World.{World}
use g_agent.Protocols.ContractNet.Participant.{
  wait_cfp, wait_decision, Participant, ParticipantCallbacks, address_reply, after_offer, on_call,
  on_decision, on_message, participant_action, participant_methods,
}

-- The participant that has sent its proposal in answer to `m`.
abbrev pub bidder : Participant → AclMessage → Participant
bidder p m = record p {
  conv_id = m.conversation_id;
  initiator = m.sender.name;
  state = wait_decision;
}

-- The message of the program as it is sent: every field that the program does not decide is written out.
abbrev pub answer_with : Participant → String → AclMessage → AclMessage → AclMessage
answer_with p conv m r = record {
  performative = r.performative;
  sender = agent_id p.my_name;
  receivers = r.receivers;
  content = r.content;
  language = r.language;
  encoding = r.encoding;
  ontology = r.ontology;
  protocol = r.protocol;
  conversation_id = conv;
  reply_with = r.reply_with;
  in_reply_to = m.reply_with;
}

module _ {A S : Type 0} (box : Mailbox S) (on : ParticipantCallbacks A) where
  open box use {transport, inbox}

  abbrev Side : Type 0
  Side = Participant × World A S

  abbrev looping : Methods Side
  looping = participant_methods transport on

  received :
      (p : Participant) (a : A) (s s' : S) (m : AclMessage)
      → transport.receive p.my_name p.timeout_ms s ≡ (some m, s')
      → participant_action transport on (p, record { app = a; net = s })
        ≡ on_message transport on p.state (some m) p (record { app = a; net = s' })
  unfolding participant_action
  received p a s s' m got =
      ap (λ r. on_message transport on p.state r.0 p (record { app = a; net = r.1 })) got

  bids :
      (p : Participant) (a : A) (s s' : S) (m : AclMessage)
      → p.state ≡ wait_cfp
      → m.performative ≡ cfp
      → (on.prepare_proposal m a).0.performative ≡ propose
      → transport.receive p.my_name p.timeout_ms s ≡ (some m, s')
      → participant_action transport on (p, record { app = a; net = s }) ≡ (
        bidder p m,
        record {
          app = (on.prepare_proposal m a).1;
          net =
              (transport.send m.sender.name
                (address_reply p m.conversation_id m (on.prepare_proposal m a).0)
                s').1;
        },
      )
  unfolding on_call
  bids p a s s' m fresh call bid got =
      let w : World A S = record { app = a; net = s' } in
      received p a s s' m got
      ∙ (ap (λ q. on_message transport on q (some m) p w) fresh
          ∙ (ap (λ q. on_call transport on q m p w) call
              ∙ ap (λ q. (after_offer q m p, (on_call transport on cfp m p w).1)) bid))

  works :
      (p : Participant) (a : A) (s s' : S) (d : AclMessage)
      → p.state ≡ wait_decision
      → d.conversation_id ≡ p.conv_id
      → d.performative ≡ accept_proposal
      → transport.receive p.my_name p.timeout_ms s ≡ (some d, s')
      → participant_action transport on (p, record { app = a; net = s }) ≡ (
        record p { is_done = true },
        record {
          app = (on.execute_task d a).1;
          net =
              (transport.send p.initiator
                (address_reply p p.conv_id d (on.execute_task d a).0)
                s').1;
        },
      )
  unfolding on_decision
  works p a s s' d waits own won got =
      let w : World A S = record { app = a; net = s' } in
      let same : (d.conversation_id == p.conv_id) ≡ true =
        (eq_iff d.conversation_id p.conv_id).1 own in
      received p a s s' d got
      ∙ (ap (λ q. on_message transport on q (some d) p w) waits
          ∙ (ap (λ b. if b then on_decision transport on d.performative d p w else (p, w)) same
              ∙ ap (λ q. on_decision transport on q d p w) won))

  -- Over any transport with the laws of a mailbox, a participant that waits for a call, and that has a
  -- call and then the acceptance for its conversation in its queue, ends its loop in two turns if its
  -- program answers the call with a proposal. Its program has prepared the proposal and then executed
  -- the task, its queue is empty, and the initiator, which has another name, has the proposal and then
  -- the result behind what waited for it, both with the participant as sender, the conversation of the
  -- call, and the reference to the message that they answer.
  pub task_done :
      (p : Participant) (a : A) (s : S) (m d : AclMessage)
      → p.state ≡ wait_cfp
      → p.is_done ≡ false
      → (p.my_name == m.sender.name) ≡ false
      → inbox p.my_name s ≡ m ∷ d ∷ []
      → m.performative ≡ cfp
      → (on.prepare_proposal m a).0.performative ≡ propose
      → d.performative ≡ accept_proposal
      → d.conversation_id ≡ m.conversation_id
      → let (offer, a1) = on.prepare_proposal m a in
        let (result, a2) = on.execute_task d a1 in
        (s' : S) × (run_loop 2 (participant_methods transport on) (p, record { app = a; net = s })
          ≡ some (record (bidder p m) { is_done = true }, record { app = a2; net = s' }))
        × (inbox p.my_name s' ≡ [])
        × (inbox m.sender.name s'
            ≡ inbox m.sender.name s
              ++ answer_with p m.conversation_id m offer
                ∷ answer_with p m.conversation_id d result
                ∷ [])
  unfolding run_loop address_reply
  task_done p a s m d fresh going apart here call bid won own =
      let n = m.sender.name in
      let r1 = address_reply p m.conversation_id m (on.prepare_proposal m a).0 in
      let a1 = (on.prepare_proposal m a).1 in
      let r2 = address_reply p m.conversation_id d (on.execute_task d a1).0 in
      let apart' : (n == p.my_name) ≡ false =
        ground (arith, eq_iff n p.my_name, eq_iff p.my_name n) in
      let (s1, got1, left1, others1) =
        receive_waiting box p.my_name p.timeout_ms s m (d ∷ []) here in
      let s2 = (transport.send n r1 s1).1 in
      let x1 : Side = (bidder p m, record { app = a1; net = s2 }) in
      let left2 : inbox p.my_name s2 ≡ d ∷ [] =
        send_elsewhere box n p.my_name r1 s1 apart' ∙ left1 in
      let (s3, got3, left3, others3) = receive_waiting box p.my_name p.timeout_ms s2 d [] left2 in
      let s4 = (transport.send n r2 s3).1 in
      let told : inbox n s3 ≡ inbox n s ++ r1 ∷ [] =
        others3 n apart ∙ (send_here box n r1 s1 ∙ ap (λ l. l ++ r1 ∷ []) (others1 n apart)) in
      (
        s4,
        run_loop-more 1 looping (p, record { app = a; net = s })
              (ap (λ x. (x.0.is_done, x)) (bids p a s s1 m fresh call bid got1) ∙ λ k.
                (going k, x1))
            ∙ run_loop-last 0 looping x1
                (ap (λ x. (x.0.is_done, x)) (works (bidder p m) a1 s2 s3 d refl own won got3)),
        send_elsewhere box n p.my_name r2 s3 apart' ∙ left3,
        send_here box n r2 s3
            ∙ (ap (λ l. l ++ r2 ∷ []) told ∙ append_assoc (inbox n s) (r1 ∷ []) (r2 ∷ [])),
      )
