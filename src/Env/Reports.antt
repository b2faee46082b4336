-- ===== src/Env/Reports.antt =====
-- `readDataFromQueueMsg` of src/env/Environnement.cpp: what one message of an agent does to the
-- environment, and the queue of messages that agents write to. A queue that is full makes them wait.
use mathlib.Core.Option
use g_agent.Base.{
  ℕ, suc, List, ◌++◌, leb, Bool-cases, inl, inr, ◌∷◌, [], String, false, Option, none, some,
  if◌then◌else◌, ◌==◌, string_key, Map, lookup, insert, lookup-insert, lookup-insert_self,
  IsDistinct, ◌≡◌, refl, ap, ◌∙◌, not, is_empty,
}
use g_agent.Env.Attributs.{Attributs, attributs_text, parse_key_val_seq}
use g_agent.Env.Attributs.RoundTrip.{IsPlain, parse_key_val_seq-attributs_text}
use g_agent.Env.Nsap.{Environnement}

-- The attributes of all agents, by the value of their attribute `id`.
abbrev pub Reported : Type 0
Reported = Map String Attributs

abbrev pub store_report :
    Option String → Attributs → Environnement Reported → Environnement Reported
store_report none m e = e
store_report (some agent) m e = record e { list_attr = insert agent m e.list_attr }

-- `id` is the name of the attribute that identifies an agent.
unfoldable pub take_report : String → String → Environnement Reported → Environnement Reported
take_report id text e =
    let m = parse_key_val_seq text in if not (is_empty m) then store_report (lookup id m) m e else e

empty_has_none : (m : Attributs) (k v : String) → lookup k m ≡ some v → is_empty m ≡ false
unfolding lookup
empty_has_none [] k v h = cc
empty_has_none (p ∷ m) k v h = refl

abbrev pub bytes : String → ℕ
bytes String.[] = 0
bytes (String.◌∷◌ c s) = suc (bytes s)

-- `mq_send` on the queue, whose messages have 1000 bytes at most: a longer one fails, and
-- `attributUpdated` does not look at the result.
unfoldable pub mq_send : String → List String → List String
mq_send text q = if leb (bytes text) 1000 then q ++ text ∷ [] else q

-- `attributUpdated` of src/core/Agent.cpp.
unfoldable pub attribut_updated : Attributs → List String → List String
unfolding mq_send
attribut_updated m q = mq_send (attributs_text m) q

-- The turns of the loop until the queue is empty.
unfoldable pub read_queue : String → List String → Environnement Reported → Environnement Reported
unfolding take_report
read_queue id [] e = e
read_queue id (text ∷ q) e = read_queue id q (take_report id text e)

read_queue-append :
    (id text : String) (q : List String) (e : Environnement Reported)
    → read_queue id (q ++ text ∷ []) e ≡ take_report id text (read_queue id q e)
unfolding read_queue
read_queue-append id text [] e = refl
read_queue-append id text (t ∷ q) e = read_queue-append id text q (take_report id t e)

-- What is read back: after the message that an agent with an attribute `id` makes of its attributes, the
-- environment has under that value what the agent has, for every key, and nothing else has changed. The
-- agent's keys are distinct and without `:` and `;`, and its values without `;`.
take_report-attributs_text :
    (id agent : String) (m : Attributs) (e : Environnement Reported)
    → IsPlain m
    → IsDistinct m
    → lookup id m ≡ some agent
    → let after = take_report id (attributs_text m) e in
      ((k : String) → Option.bind (lookup agent after.list_attr) (λ a. lookup k a) ≡ lookup k m)
      × ((j : String) → (agent == j) ≡ false → lookup j after.list_attr ≡ lookup j e.list_attr)
      × (after.list_snaps ≡ e.list_snaps)
      × (after.nsap_index ≡ e.nsap_index)
unfolding take_report Option.bind
take_report-attributs_text id agent m e h d f =
    let n = parse_key_val_seq (attributs_text m) in
    let there : lookup id n ≡ some agent = parse_key_val_seq-attributs_text m id h d ∙ f in
    let full : is_empty n ≡ false = empty_has_none n id agent there in
    rw full (
      rw there (
        λ k.
            ap (λ o. Option.bind o (λ a. lookup k a)) (lookup-insert_self agent n e.list_attr)
            ∙ parse_key_val_seq-attributs_text m k h d,
        λ j other. lookup-insert agent j n e.list_attr ∙ rw other refl,
        refl,
        refl,
      ))

-- A report arrives if it is no longer than the messages of the queue: once the environment has read
-- what waited there and then the report of an agent with an attribute `id`, it has under that value what
-- the agent has, for every key. A report of more than 1000 bytes is lost, and the environment is as
-- without it. Either way the attributes of other agents and the snapshots are as without it. The agent's
-- keys are distinct and without `:` and `;`, and its values without `;`.
pub read_queue-attribut_updated :
    (id agent : String) (m : Attributs) (q : List String) (e : Environnement Reported)
    → IsPlain m
    → IsDistinct m
    → lookup id m ≡ some agent
    → let before = read_queue id q e in
      let after = read_queue id (attribut_updated m q) e in
      ((k : String)
        → Option.bind (lookup agent after.list_attr) (λ a. lookup k a) ≡ (
            if leb (bytes (attributs_text m)) 1000
            then lookup k m
            else Option.bind (lookup agent before.list_attr) (λ a. lookup k a)))
      × ((j : String) → (agent == j) ≡ false → lookup j after.list_attr ≡ lookup j before.list_attr)
      × (after.list_snaps ≡ before.list_snaps)
      × (after.nsap_index ≡ before.nsap_index)
unfolding attribut_updated mq_send
read_queue-attribut_updated id agent m q e h d f =
    elim (Bool-cases (leb (bytes (attributs_text m)) 1000)) [
      | inl fits ↦ rw fits (
          rw (read_queue-append id (attributs_text m) q e)
            (take_report-attributs_text id agent m (read_queue id q e) h d f))
      | inr long ↦ rw long (λ k. refl, λ j other. refl, refl, refl)
    ]
