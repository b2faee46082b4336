-- ===== src/Messaging/Transport.antt =====
-- ITransport.hpp: the operations that the behaviours call, over a state `S` of the network, and
-- the laws of a transport that keeps one first-in first-out queue for each name.
use g_agent.Base.{
  ℕ, String, List, [], ◌∷◌, ◌++◌, Bool, Option, none, some, ◌==◌, string_key, if◌then◌else◌, ◌≡◌,
}
use g_agent.Messaging.Message.{AclMessage}

pub record Transport (S : Type 0) : Type 0 where
  pub bind : String → S → String × S
  pub send : String → AclMessage → S → Bool × S
  pub receive : String → ℕ → S → Option AclMessage × S
  pub unlink : String → S → S
  pub flush : S → S

abbrev pub front : List AclMessage → Option AclMessage
front [] = none
front (m ∷ ms) = some m

abbrev pub behind : List AclMessage → List AclMessage
behind [] = []
behind (m ∷ ms) = ms

-- `inbox n s` is what is waiting for the name `n`, oldest first.
pub record Mailbox (S : Type 0) : Type 0 where
  pub transport : Transport S
  pub open transport use *
  pub inbox : String → S → List AclMessage
  pub inbox-bind : (n k : String) (s : S) → inbox k (transport.bind n s).1 ≡ inbox k s
  pub inbox-send :
      (n k : String) (m : AclMessage) (s : S)
      → inbox k (transport.send n m s).1 ≡ (if n == k then inbox k s ++ m ∷ [] else inbox k s)
  pub receive-front :
      (n : String) (ms : ℕ) (s : S) → (transport.receive n ms s).0 ≡ front (inbox n s)
  pub inbox-receive :
      (n k : String) (ms : ℕ) (s : S)
      → inbox k (transport.receive n ms s).1 ≡ (if n == k then behind (inbox k s) else inbox k s)
