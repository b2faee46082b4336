-- ===== src/Protocols/Request/Reading.antt =====
-- What one turn of Request.hpp reads and writes, over any transport that keeps the laws of a mailbox.
use g_agent.Base.{
  String, List, [], ◌∷◌, ◌++◌, Bool, true, false, Option, none, some, if◌then◌else◌, ◌==◌,
  string_key, ◌≡◌, eq_iff, ◌∙◌, ap, append_assoc,
}
use g_agent.Core.Behaviour.{Methods, run_loop, run_loop-last, run_loop-more}
use g_agent.Messaging.Message.{
  AclMessage, Performative, request, agree, inform, refuse, failure, not_understood,
}
use g_agent.Messaging.Transport.{Mailbox}
use g_agent.Messaging.Mailboxes.{receive_waiting, send_here}
use g_agent.Protocols.World.{World}
use g_agent.Protocols.Request.{
  wait_response, RequestInitiator, InitiatorCallbacks, on_reply, act_in, initiator_action,
  initiator_methods, RequestParticipant, ParticipantCallbacks, complete_response, agree_message,
  send_agree, answer, answer_request, participant_action,
}

module _ {A B S : Type 0} (box : Mailbox S) (on_i : InitiatorCallbacks A)
    (on_p : ParticipantCallbacks B) where
  open box use {transport, inbox}

  -- The callback that a performative selects, where it ends the request.
  abbrev pub last_callback : Performative → Option (AclMessage → A → A)
  last_callback inform = some on_i.handle_inform
  last_callback refuse = some on_i.handle_refuse
  last_callback failure = some on_i.handle_failure
  last_callback not_understood = some on_i.handle_not_understood
  last_callback _ = none

  on_reply_last :
      (q : Performative) (f : AclMessage → A → A) (m : AclMessage) (i : RequestInitiator)
      (w : World A S)
      → last_callback q ≡ some f
      → on_reply transport on_i q m i w
        ≡ (record i { is_done = true }, record w { app = f m w.app })
  unfolding on_reply
  on_reply_last inform f m i w h = cc
  on_reply_last refuse f m i w h = cc
  on_reply_last failure f m i w h = cc
  on_reply_last not_understood f m i w h = cc
  on_reply_last _ f m i w h = cc

  act_waiting :
      (i : RequestInitiator) (w : World A S)
      → i.state ≡ wait_response
      → initiator_action transport on_i (i, w) ≡ act_in transport on_i wait_response i w
  unfolding initiator_action
  act_waiting i w waits = ap (λ q. act_in transport on_i q i w) waits

  -- An initiator that waits reads the answer that ends its request.
  read_last :
      (i : RequestInitiator) (a : A) (s : S) (m : AclMessage) (rest : List AclMessage)
      (f : AclMessage → A → A)
      → i.state ≡ wait_response
      → inbox i.my_name s ≡ m ∷ rest
      → m.conversation_id ≡ i.conv_id
      → last_callback m.performative ≡ some f
      → (s' : S) × (initiator_action transport on_i (i, record { app = a; net = s })
          ≡ (record i { is_done = true }, record { app = f m a; net = s' }))
        × (inbox i.my_name s' ≡ rest)
        × ((k : String) → (i.my_name == k) ≡ false → inbox k s' ≡ inbox k s)
  read_last i a s m rest f waits here same final =
      let (s', got, left, others) = receive_waiting box i.my_name i.timeout_ms s m rest here in
      let own : (m.conversation_id == i.conv_id) ≡ true =
        (eq_iff m.conversation_id i.conv_id).1 same in
      (
        s',
        act_waiting i (record { app = a; net = s }) waits
            ∙ rw got
                (rw own (on_reply_last m.performative f m i (record { app = a; net = s' }) final)),
        left,
        others,
      )

  read_agree :
      (i : RequestInitiator) (a : A) (s : S) (m : AclMessage) (rest : List AclMessage)
      → i.state ≡ wait_response
      → inbox i.my_name s ≡ m ∷ rest
      → m.conversation_id ≡ i.conv_id
      → m.performative ≡ agree
      → (s' : S) × (initiator_action transport on_i (i, record { app = a; net = s })
          ≡ (i, record { app = on_i.handle_agree m a; net = s' }))
        × (inbox i.my_name s' ≡ rest)
        × ((k : String) → (i.my_name == k) ≡ false → inbox k s' ≡ inbox k s)
  unfolding on_reply
  read_agree i a s m rest waits here same agreed =
      let (s', got, left, others) = receive_waiting box i.my_name i.timeout_ms s m rest here in
      let own : (m.conversation_id == i.conv_id) ≡ true =
        (eq_iff m.conversation_id i.conv_id).1 same in
      (
        s',
        act_waiting i (record { app = a; net = s }) waits
            ∙ rw got (
                rw own
                  (ap (λ q. on_reply transport on_i q m i (record { app = a; net = s' })) agreed)),
        left,
        others,
      )

  -- What `answer` leaves in the queue of the sender: the agreement, if there is one, and the response.
  abbrev pub answers : RequestParticipant → AclMessage → B → List AclMessage
  answers p m b =
      let (wants, b1) = on_p.prepare_agree m b in
      let r = complete_response p m (on_p.handle_request m b1).0 in
      if wants then agree_message p m ∷ r ∷ [] else r ∷ []

  pub send_agree-inbox :
      (wants : Bool) (p : RequestParticipant) (m r : AclMessage) (s : S)
      → inbox m.sender.name
          (transport.send m.sender.name r (send_agree transport on_p wants p m s)).1
        ≡ inbox m.sender.name s ++ (if wants then agree_message p m ∷ r ∷ [] else r ∷ [])
  unfolding send_agree
  send_agree-inbox false p m r s = send_here box m.sender.name r s
  send_agree-inbox true p m r s =
      send_here box m.sender.name r _
      ∙ (ap (λ l. l ++ r ∷ []) (send_here box m.sender.name (agree_message p m) s)
          ∙ append_assoc (inbox m.sender.name s) (agree_message p m ∷ []) (r ∷ []))

  pub answer-inbox :
      (p : RequestParticipant) (m : AclMessage) (b : B) (s : S)
      → inbox m.sender.name (answer transport on_p p m (record { app = b; net = s })).net
        ≡ inbox m.sender.name s ++ answers p m b
  unfolding answer
  answer-inbox p m b s = send_agree-inbox _ p m _ s

  pub participant_reads :
      (p : RequestParticipant) (b : B) (s : S) (m : AclMessage) (rest : List AclMessage)
      → inbox p.my_name s ≡ m ∷ rest
      → m.performative ≡ request
      → (s' : S) × (participant_action transport on_p (p, record { app = b; net = s })
          ≡ (p, answer transport on_p p m (record { app = b; net = s' })))
        × (inbox p.my_name s' ≡ rest)
        × ((k : String) → (p.my_name == k) ≡ false → inbox k s' ≡ inbox k s)
  unfolding participant_action answer_request
  participant_reads p b s m rest here asked =
      let (s', got, left, others) = receive_waiting box p.my_name p.tick_ms s m rest here in
      (
        s',
        rw got (
            ap (λ q. (p, answer_request transport on_p q p m (record { app = b; net = s' })))
              asked),
        left,
        others,
      )

  abbrev looping : Methods (RequestInitiator × World A S)
  looping = initiator_methods transport on_i

  -- The initiator reads its answers: the last one ends the request, and an agreement may come first.
  pub read_answers :
      (wants : Bool) (i : RequestInitiator) (a : A) (s : S) (g r : AclMessage)
      (f : AclMessage → A → A)
      → i.state ≡ wait_response
      → i.is_done ≡ false
      → inbox i.my_name s ≡ (if wants then g ∷ r ∷ [] else r ∷ [])
      → g.conversation_id ≡ i.conv_id
      → g.performative ≡ agree
      → r.conversation_id ≡ i.conv_id
      → last_callback r.performative ≡ some f
      → (s' : S) × (run_loop 2 (initiator_methods transport on_i) (i, record { app = a; net = s })
          ≡ some (
            record i { is_done = true },
            record { app = f r (if wants then on_i.handle_agree g a else a); net = s' },
          ))
        × (inbox i.my_name s' ≡ [])
  unfolding run_loop
  read_answers false i a s g r f waits going here gc ga rc final =
      let (s', step, left, others) = read_last i a s r [] f waits here rc final in
      (s', run_loop-last 1 looping (i, record { app = a; net = s }) (rw step), left)
  read_answers true i a s g r f waits going here gc ga rc final =
      let (s1, step, left, others) = read_agree i a s g (r ∷ []) waits here gc ga in
      let a1 = on_i.handle_agree g a in
      let (s2, step2, left2, others2) = read_last i a1 s1 r [] f waits left rc final in
      let x1 : RequestInitiator × World A S = (i, record { app = a1; net = s1 }) in
      let goes_on : looping.done x1 ≡ (false, x1) = λ k. (going k, x1) in
      (
        s2,
        run_loop-more 1 looping (i, record { app = a; net = s }) (rw step goes_on)
            ∙ run_loop-last 0 looping x1 (rw step2),
        left2,
      )
