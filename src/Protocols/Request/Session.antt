-- ===== src/Protocols/Request/Session.antt =====
-- A whole request over any transport that keeps the laws of a mailbox.
use g_agent.Base.{
  arith, [], ◌∷◌, ◌++◌, true, false, Option, some, if◌then◌else◌, ◌⊎◌, inl, inr, Bool-cases, ◌==◌,
  string_key, ◌≡◌, refl, eq_iff, ◌∙◌, sym, ap, subst,
}
use g_agent.Core.Behaviour.{run_loop}
use g_agent.Messaging.Message.{AclMessage, create_reply}
use g_agent.Messaging.Transport.{Mailbox}
use g_agent.Messaging.Mailboxes.{send_here, send_elsewhere}
use g_agent.Protocols.World.{World}
use g_agent.Protocols.Request.{
  send_request, wait_response, RequestInitiator, InitiatorCallbacks, request_message, act_in,
  initiator_action, initiator_methods, RequestParticipant, ParticipantCallbacks, complete_response,
  agree_message, answer, participant_action,
}
use g_agent.Protocols.Request.Reading.{
  last_callback, answers, read_answers, participant_reads, answer-inbox,
}

module _ {A B S : Type 0} (box : Mailbox S) (on_i : InitiatorCallbacks A)
    (on_p : ParticipantCallbacks B) where
  open box use {transport, inbox}

  -- One `action` of the initiator, one of the participant, and then the initiator's thread for two
  -- rounds at most; with it what the participant's program remembers.
  pub session :
      RequestInitiator → RequestParticipant → A → B → S → Option (RequestInitiator × World A S) × B
  session i p a b s =
      let (i1, w1) = initiator_action transport on_i (i, record { app = a; net = s }) in
      let (p1, v) = participant_action transport on_p (p, record { app = b; net = w1.net }) in
      (run_loop 2 (initiator_methods transport on_i) (i1, record w1 { net = v.net }), v.app)

  first_action :
      (i : RequestInitiator) (w : World A S)
      → i.state ≡ send_request
      → initiator_action transport on_i (i, w) ≡ (
        record i { state = wait_response },
        record w { net = (transport.send i.target (request_message i) w.net).1 },
      )
  unfolding initiator_action
  first_action i w fresh = ap (λ q. act_in transport on_i q i w) fresh

  session_ends :
      (i : RequestInitiator) (p : RequestParticipant) (a : A) (b : B) (s : S)
      (f : AclMessage → A → A)
      → i.state ≡ send_request
      → i.is_done ≡ false
      → i.target ≡ p.my_name
      → (p.my_name == i.my_name) ≡ false
      → inbox i.my_name s ≡ []
      → inbox p.my_name s ≡ []
      → let m = request_message i in
        let (wants, b1) = on_p.prepare_agree m b in
        let (r0, b2) = on_p.handle_request m b1 in
        let r = complete_response p m r0 in
        r.conversation_id ≡ i.conv_id
        → last_callback box on_i on_p r.performative ≡ some f
        → (s' : S) × (session i p a b s ≡ (
          some (
            record i { state = wait_response; is_done = true },
            record {
              app = f r (if wants then on_i.handle_agree (agree_message p m) a else a);
              net = s';
            },
          ),
          b2,
        ))
          × (inbox i.my_name s' ≡ [])
  unfolding session request_message answer agree_message create_reply
  session_ends i p a b s f fresh going to apart mine theirs rc final =
      let m = request_message i in
      let s1 = (transport.send i.target m s).1 in
      let e1 = first_action i (record { app = a; net = s }) fresh in
      let sent : inbox i.target s1 ≡ m ∷ [] =
        send_here box i.target m s
        ∙ ap (λ l. l ++ m ∷ []) (subst (λ n. inbox n s ≡ []) (sym to) theirs) in
      let waiting : inbox p.my_name s1 ≡ m ∷ [] = subst (λ n. inbox n s1 ≡ m ∷ []) to sent in
      let apart' : (i.target == i.my_name) ≡ false =
        subst (λ n. (n == i.my_name) ≡ false) (sym to) apart in
      let (s2, e2, left, others) = participant_reads box on_i on_p p b s1 m [] waiting refl in
      let mine2 : inbox i.my_name s2 ≡ [] =
        others i.my_name apart ∙ (send_elsewhere box i.target i.my_name m s apart' ∙ mine) in
      let s3 = (answer transport on_p p m (record { app = b; net = s2 })).net in
      let arrived : inbox i.my_name s3 ≡ answers box on_i on_p p m b =
        answer-inbox box on_i on_p p m b s2 ∙ ap (λ l. l ++ answers box on_i on_p p m b) mine2 in
      let r = complete_response p m (on_p.handle_request m (on_p.prepare_agree m b).1).0 in
      let (s4, run, empty) =
        read_answers box on_i on_p (on_p.prepare_agree m b).0 (record i { state = wait_response }) a
          s3 (agree_message p m) r f refl going arrived refl refl rc final in
      (
        s4,
        rw e1 (rw e2 (λ k. (run k, (on_p.handle_request m (on_p.prepare_agree m b).1).1))),
        empty,
      )

  completed-conversation :
      (i : RequestInitiator) (p : RequestParticipant) (r : AclMessage)
      → (r.conversation_id ≡ "") ⊎ (r.conversation_id ≡ i.conv_id)
      → (complete_response p (request_message i) r).conversation_id ≡ i.conv_id
  unfolding complete_response request_message
  completed-conversation i p r h = elim (Bool-cases (r.conversation_id == "")) [
    | inl e ↦ rw e
    | inr e ↦
        rw e (elim h [
          | inl none_given ↦ ground (arith, eq_iff r.conversation_id "")
          | inr same ↦ same
        ])
  ]

  -- A request to a participant is answered and ends in two rounds: the initiator is done, its
  -- program has seen the agreement, if the participant wanted to send one, and then the response
  -- that the participant's program made, completed, by the callback of its performative; nothing is
  -- left in its queue. Both queues are empty at the start, the names differ, the
  -- program's response names the conversation or leaves it empty, and the performative of the
  -- completed response is one that ends a request.
  pub session_completes :
      (i : RequestInitiator) (p : RequestParticipant) (a : A) (b : B) (s : S)
      (f : AclMessage → A → A)
      → i.state ≡ send_request
      → i.is_done ≡ false
      → i.target ≡ p.my_name
      → (p.my_name == i.my_name) ≡ false
      → inbox i.my_name s ≡ []
      → inbox p.my_name s ≡ []
      → let m = request_message i in
        let (wants, b1) = on_p.prepare_agree m b in
        let (r0, b2) = on_p.handle_request m b1 in
        let r = complete_response p m r0 in
        (r0.conversation_id ≡ "") ⊎ (r0.conversation_id ≡ i.conv_id)
        → last_callback box on_i on_p r.performative ≡ some f
        → (s' : S) × (session i p a b s ≡ (
          some (
            record i { state = wait_response; is_done = true },
            record {
              app = f r (if wants then on_i.handle_agree (agree_message p m) a else a);
              net = s';
            },
          ),
          b2,
        ))
          × (inbox i.my_name s' ≡ [])
  session_completes i p a b s f fresh going to apart mine theirs rc final =
      session_ends i p a b s f fresh going to apart mine theirs
        (completed-conversation i p
          (on_p.handle_request (request_message i) (on_p.prepare_agree (request_message i) b).1).0
          rc)
        final
