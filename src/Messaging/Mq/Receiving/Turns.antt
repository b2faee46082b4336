-- ===== src/Messaging/Mq/Receiving/Turns.antt =====
-- The turns of the loop of `acl_receive`, in include/gagent/messaging/AclMQ.hpp.
use mathlib.Core.Option
use g_agent.Base.{
  ℕ, zero, suc, ◌+◌, ◌-◌, ◌<◌, ◌≤◌, String, true, false, Option, none, some, is_some, leb, arith,
  ◌≡◌, refl, ap, ◌∙◌, Bool-cases, inl, inr, ℤ, pos, negsuc,
}
use g_agent.Platform.Config.{Config}
use g_agent.Messaging.Message.{AclMessage}
use g_agent.Messaging.Text.Parser.{parse}
use g_agent.Messaging.Text.Printer.{to_string}
use g_agent.Messaging.Text.Printer.Lines.{Wordy}
use g_agent.Messaging.Text.Printer.Clean.{nul_free}
use g_agent.Messaging.Text.RoundTrip.{without_addresses, parse-to_string}
use g_agent.Messaging.Mq.{Calls, PullCache, get, Found}
use g_agent.Messaging.Mq.Receiving.{
  Polled, interrupted, poll_failed, quiet, readable, Received, nothing_there, receive_failed, got,
  Waiting, deadline_at, poll_time, Waited, on_received, on_polled, wait, receive_on, acl_receive,
}

-- The clock does not stand still while ZeroMQ waits, and never goes back.
pub record Ticks {Z : Type 0} (w : Waiting Z) : Type 0 where
  pub polls : (sock ms : ℕ) (z : Z) → w.clock z < w.clock (w.poll sock ms z).1
  pub receives : (sock : ℕ) (z : Z) → w.clock z ≤ w.clock (w.receive sock z).1

module _ {Z : Type 0} (w : Waiting Z) (sock deadline : ℕ) where
  early : (now : ℕ) → leb deadline now ≡ false → now < deadline
  early now h = ground arith

  on_polled-returns :
      (f : Z → Waited w sock deadline) (now : ℕ) (p : Polled × Z)
      → Ticks w
      → now < w.clock p.1
      → ((y : Z) → now < w.clock y → is_some (f y) ≡ true)
      → is_some (on_polled w sock deadline f p) ≡ true
  on_polled-returns f now (interrupted, y) t k again = again y k
  on_polled-returns f now (quiet, y) t k again = again y k
  on_polled-returns f now (poll_failed, y) t k again = refl
  on_polled-returns f now (readable, y) t k again =
      received (w.receive sock y) (omega (arith, k, t.receives sock y))
    where
      received :
          (r : Received × Z) → now < w.clock r.1 → is_some (on_received w sock deadline f r) ≡ true
      received (nothing_there, z) k = again z k
      received (receive_failed, z) k = refl
      received (got raw, z) k = refl

  pub wait-returns :
      (n : ℕ) (z : Z)
      → Ticks w
      → deadline - w.clock z < n
      → is_some (wait w sock deadline n z) ≡ true
  unfolding wait
  wait-returns zero z t h = absurd (omega (arith, h))
  wait-returns (suc n) z t h = elim (Bool-cases (leb deadline (w.clock z))) [
    | inl e ↦ rw e refl
    | inr e ↦ rw e (
        on_polled-returns (wait w sock deadline n) (w.clock z)
          (w.poll sock (poll_time deadline (w.clock z)) z) t
          (t.polls sock (poll_time deadline (w.clock z)) z)
          (λ y k. wait-returns n y t (omega (arith, h, early (w.clock z) e, k))))
  ]

  more : (k n : ℕ) → suc k + n ≡ suc (k + n)
  more k n = omega arith

  -- Turns that bring nothing: an interruption, a poll without a result, a reading of nothing.
  pub data Idle : ℕ → Z → Z → Type 0 where
    stays : {z : Z} → Idle 0 z z
    interrupts :
        {k : ℕ} {x y z : Z}
        → leb deadline (w.clock x) ≡ false
        → w.poll sock (poll_time deadline (w.clock x)) x ≡ (interrupted, y)
        → Idle k y z
        → Idle (suc k) x z
    quiets :
        {k : ℕ} {x y z : Z}
        → leb deadline (w.clock x) ≡ false
        → w.poll sock (poll_time deadline (w.clock x)) x ≡ (quiet, y)
        → Idle k y z
        → Idle (suc k) x z
    wakes :
        {k : ℕ} {u x y z : Z}
        → leb deadline (w.clock u) ≡ false
        → w.poll sock (poll_time deadline (w.clock u)) u ≡ (readable, x)
        → w.receive sock x ≡ (nothing_there, y)
        → Idle k y z
        → Idle (suc k) u z

  -- How a turn ends the wait.
  pub data Ends : Z → Option AclMessage → Z → Type 0 where
    in_vain : {z : Z} → leb deadline (w.clock z) ≡ true → Ends z none z
    breaks :
        {x y : Z}
        → leb deadline (w.clock x) ≡ false
        → w.poll sock (poll_time deadline (w.clock x)) x ≡ (poll_failed, y)
        → Ends x none y
    fails :
        {x y z : Z}
        → leb deadline (w.clock x) ≡ false
        → w.poll sock (poll_time deadline (w.clock x)) x ≡ (readable, y)
        → w.receive sock y ≡ (receive_failed, z)
        → Ends x none z
    gets :
        {x y z : Z} {raw : String}
        → leb deadline (w.clock x) ≡ false
        → w.poll sock (poll_time deadline (w.clock x)) x ≡ (readable, y)
        → w.receive sock y ≡ (got raw, z)
        → Ends x (parse raw) z

  wait-Ends :
      (n : ℕ) {x z : Z} {r : Option AclMessage}
      → Ends x r z
      → wait w sock deadline (suc n) x ≡ some (r, z)
  unfolding wait
  wait-Ends n (in_vain e) = rw e refl
  wait-Ends n (breaks e p) = rw e (rw p refl)
  wait-Ends n (fails e p r) = rw e (rw p (rw r refl))
  wait-Ends n (gets e p r) = rw e (rw p (rw r refl))

  wait-Idle :
      {k : ℕ} {x z : Z} (n : ℕ)
      → Idle k x z
      → wait w sock deadline (k + n) x ≡ wait w sock deadline n z
  unfolding wait
  wait-Idle {x = x} n stays = ap (λ f. wait w sock deadline f x) (omega arith)
  wait-Idle {k = suc k} {x = x} n (interrupts e p i) =
      ap (λ f. wait w sock deadline f x) (more k n) ∙ rw e (rw p (wait-Idle n i))
  wait-Idle {k = suc k} {x = x} n (quiets e p i) =
      ap (λ f. wait w sock deadline f x) (more k n) ∙ rw e (rw p (wait-Idle n i))
  wait-Idle {k = suc k} {x = x} n (wakes e p r i) =
      ap (λ f. wait w sock deadline f x) (more k n) ∙ rw e (rw p (rw r (wait-Idle n i)))

time_left :
    (fuel now : ℕ) (timeout_ms : ℤ)
    → deadline_at 0 timeout_ms < fuel
    → deadline_at now timeout_ms - now < fuel
unfolding deadline_at
time_left fuel now (pos ms) h = omega (arith, h)
time_left fuel now (negsuc n) h = omega (arith, h)

module _ {Z : Type 0} (c : Calls Z) (w : Waiting Z) where
  -- `acl_receive` returns, whatever ZeroMQ does: with more fuel than the timeout has nanoseconds the
  -- loop has ended, if the clock moves on in every poll and does not go back.
  pub acl_receive-returns :
      (fuel : ℕ) (cfg : Config) (cur : ℤ) (name : String) (timeout_ms : ℤ) (p : PullCache) (z : Z)
      → Ticks w
      → deadline_at 0 timeout_ms < fuel
      → is_some (acl_receive c w fuel cfg cur name timeout_ms p z) ≡ true
  unfolding acl_receive
  acl_receive-returns fuel cfg cur name timeout_ms p z t h = found (get c cfg cur name p z)
    where
      mapped :
          {A B : Type 0} (f : A → B) (o : Option A)
          → is_some o ≡ true
          → is_some (Option.map f o) ≡ true
      mapped f none e = cc
      mapped f (some a) e = refl

      found : (o : Found c) → is_some (receive_on c w fuel timeout_ms o) ≡ true
      found (none, q, y) = refl
      found (some (sock, ep), q, y) =
          mapped _ (wait w sock (deadline_at (w.clock y) timeout_ms) fuel y) (
            wait-returns w sock (deadline_at (w.clock y) timeout_ms) fuel y t
              (time_left fuel (w.clock y) timeout_ms h))

  acl_receive-Ends :
      (k n : ℕ) (cfg : Config) (cur : ℤ) (name : String) (timeout_ms : ℤ) (p q : PullCache)
      (z x y after : Z) (sock : ℕ) (ep : String) (r : Option AclMessage)
      → get c cfg cur name p z ≡ (some (sock, ep), q, x)
      → Idle w sock (deadline_at (w.clock x) timeout_ms) k x y
      → Ends w sock (deadline_at (w.clock x) timeout_ms) y r after
      → acl_receive c w (k + suc n) cfg cur name timeout_ms p z ≡ some (r, q, after)
  unfolding acl_receive
  acl_receive-Ends k n cfg cur name timeout_ms p q z x y after sock ep r g i e =
      ap (receive_on c w (k + suc n) timeout_ms) g
      ∙ ap (Option.map (λ r. (r.0, q, r.1))) (
          wait-Idle w sock (deadline_at (w.clock x) timeout_ms) (suc n) i
          ∙ wait-Ends w sock (deadline_at (w.clock x) timeout_ms) n e)

  -- What is read from the socket is returned: where the socket of the name is bound, turns that bring nothing come
  -- first, and then, before the deadline, the text of a message is read from the socket, `acl_receive`
  -- returns that message without the addresses of its agents. The fuel is more than those turns; the
  -- message is written in words (`Wordy`) and its content has no NUL character.
  pub acl_receive-to_string :
      (k n : ℕ) (cfg : Config) (cur : ℤ) (name : String) (timeout_ms : ℤ) (p q : PullCache)
      (z x y ready after : Z) (sock : ℕ) (ep : String) (m : AclMessage)
      → get c cfg cur name p z ≡ (some (sock, ep), q, x)
      → Idle w sock (deadline_at (w.clock x) timeout_ms) k x y
      → leb (deadline_at (w.clock x) timeout_ms) (w.clock y) ≡ false
      → w.poll sock (poll_time (deadline_at (w.clock x) timeout_ms) (w.clock y)) y
        ≡ (readable, ready)
      → w.receive sock ready ≡ (got (to_string m), after)
      → Wordy m
      → nul_free m.content ≡ true
      → acl_receive c w (k + suc n) cfg cur name timeout_ms p z
        ≡ some (some (without_addresses m), q, after)
  acl_receive-to_string k n cfg cur name timeout_ms p q z x y ready after sock ep m g i e o r h f =
      acl_receive-Ends k n cfg cur name timeout_ms p q z x y after sock ep (parse (to_string m)) g i
        (gets e o r)
      ∙ ap (λ t. some (t, q, after)) (parse-to_string m h f)
