-- ===== src/Messaging/Mailboxes.antt =====
-- What the laws of a mailbox say of one operation.
use g_agent.Base.{
  ℕ, String, List, [], ◌∷◌, ◌++◌, false, none, some, ◌==◌, string_key, ◌≡◌, ==_refl, ◌∙◌,
}
use g_agent.Messaging.Message.{AclMessage}
use g_agent.Messaging.Transport.{Mailbox}

module _ {S : Type 0} (box : Mailbox S) where
  open box use {transport, inbox, inbox-send, receive-front, inbox-receive}

  -- A waiting message is received and leaves its queue; the other queues stay.
  pub receive_waiting :
      (n : String) (ms : ℕ) (s : S) (m : AclMessage) (rest : List AclMessage)
      → inbox n s ≡ m ∷ rest
      → (s' : S) × (transport.receive n ms s ≡ (some m, s'))
        × (inbox n s' ≡ rest)
        × ((k : String) → (n == k) ≡ false → inbox k s' ≡ inbox k s)
  receive_waiting n ms s m rest h =
      let first : (transport.receive n ms s).0 ≡ some m = receive-front n ms s ∙ rw h in
      (
        (transport.receive n ms s).1,
        λ i. (first i, (transport.receive n ms s).1),
        inbox-receive n n ms s ∙ rw (==_refl n) (rw h),
        λ k ne. inbox-receive n k ms s ∙ rw ne,
      )

  -- With nothing waiting, nothing is received, and all queues stay.
  pub receive_nothing :
      (n : String) (ms : ℕ) (s : S)
      → inbox n s ≡ []
      → (s' : S) × (transport.receive n ms s ≡ (none, s'))
        × (inbox n s' ≡ [])
        × ((k : String) → (n == k) ≡ false → inbox k s' ≡ inbox k s)
  receive_nothing n ms s h =
      let first : (transport.receive n ms s).0 ≡ none = receive-front n ms s ∙ rw h in
      (
        (transport.receive n ms s).1,
        λ i. (first i, (transport.receive n ms s).1),
        inbox-receive n n ms s ∙ rw (==_refl n) (rw h),
        λ k ne. inbox-receive n k ms s ∙ rw ne,
      )

  pub send_here :
      (n : String) (m : AclMessage) (s : S) → inbox n (transport.send n m s).1 ≡ inbox n s ++ m ∷ []
  send_here n m s = inbox-send n n m s ∙ rw (==_refl n)

  pub send_elsewhere :
      (n k : String) (m : AclMessage) (s : S)
      → (n == k) ≡ false
      → inbox k (transport.send n m s).1 ≡ inbox k s
  send_elsewhere n k m s ne = inbox-send n k m s ∙ rw ne
