-- ===== src/Messaging/Performatives.antt =====
-- `performativeToString` and `stringToPerformative` of ACLMessage.cpp.
use g_agent.Base.{
  String, ◌≡◌, refl, sym, List, [], ◌∷◌, ◌⊎◌, inl, inr, Bool-cases, ◌==◌, string_key, eq_iff,
  if◌then◌else◌,
}
use g_agent.Messaging.Message.{
  Performative, accept_proposal, agree, cancel, cfp, confirm, disconfirm, failure, inform,
  inform_if, inform_ref, not_understood, propagate, propose, proxy, query_ref, refuse,
  reject_proposal, request, request_when, request_whenever, subscribe, unknown,
}

unfoldable pub performative_to_string : Performative → String
performative_to_string accept_proposal = "accept-proposal"
performative_to_string agree = "agree"
performative_to_string cancel = "cancel"
performative_to_string cfp = "cfp"
performative_to_string confirm = "confirm"
performative_to_string disconfirm = "disconfirm"
performative_to_string failure = "failure"
performative_to_string inform = "inform"
performative_to_string inform_if = "inform-if"
performative_to_string inform_ref = "inform-ref"
performative_to_string not_understood = "not-understood"
performative_to_string propagate = "propagate"
performative_to_string propose = "propose"
performative_to_string proxy = "proxy"
performative_to_string query_ref = "query-ref"
performative_to_string refuse = "refuse"
performative_to_string reject_proposal = "reject-proposal"
performative_to_string request = "request"
performative_to_string request_when = "request-when"
performative_to_string request_whenever = "request-whenever"
performative_to_string subscribe = "subscribe"
performative_to_string unknown = "unknown"

unfoldable pub string_to_performative : String → Performative
string_to_performative s =
    if s == "accept-proposal"
    then accept_proposal
    else if s == "agree"
    then agree
    else if s == "cancel"
    then cancel
    else if s == "cfp"
    then cfp
    else if s == "confirm"
    then confirm
    else if s == "disconfirm"
    then disconfirm
    else if s == "failure"
    then failure
    else if s == "inform"
    then inform
    else if s == "inform-if"
    then inform_if
    else if s == "inform-ref"
    then inform_ref
    else if s == "not-understood"
    then not_understood
    else if s == "propagate"
    then propagate
    else if s == "propose"
    then propose
    else if s == "proxy"
    then proxy
    else if s == "query-ref"
    then query_ref
    else if s == "refuse"
    then refuse
    else if s == "reject-proposal"
    then reject_proposal
    else if s == "request"
    then request
    else if s == "request-when"
    then request_when
    else if s == "request-whenever"
    then request_whenever
    else if s == "subscribe"
    then subscribe
    else unknown

-- `p` is what the name `s` stands for.
abbrev pub Names : String → Performative → Type 0
Names s p = (performative_to_string p ≡ s) ⊎ (p ≡ unknown)

-- The performatives in the order of the chain of tests.
abbrev named : List Performative
named =
    accept_proposal ∷ agree ∷ cancel ∷ cfp ∷ confirm ∷ disconfirm ∷ failure ∷ inform ∷ inform_if
    ∷ inform_ref ∷ not_understood ∷ propagate ∷ propose ∷ proxy ∷ query_ref ∷ refuse
    ∷ reject_proposal ∷ request ∷ request_when ∷ request_whenever ∷ subscribe ∷ []

-- The chain of tests over any list of performatives.
abbrev first_named : List Performative → String → Performative
first_named [] s = unknown
first_named (p ∷ ps) s = if s == performative_to_string p then p else first_named ps s

first_named-Names : (ps : List Performative) (s : String) → Names s (first_named ps s)
first_named-Names [] s = inr refl
first_named-Names (p ∷ ps) s = elim (Bool-cases (s == performative_to_string p)) [
  | inl hit ↦ rw hit (inl (sym ((eq_iff s (performative_to_string p)).0 hit)))
  | inr miss ↦ rw miss (first_named-Names ps s)
]

-- Reading back the text of a performative gives that performative, for all 22 of them.
string_to_performative-performative_to_string :
    (p : Performative) → string_to_performative (performative_to_string p) ≡ p
unfolding string_to_performative performative_to_string
string_to_performative-performative_to_string accept_proposal = refl
string_to_performative-performative_to_string _ = refl

-- A text that is read as a performative other than `unknown` is the text of that performative.
string_to_performative-Names : (s : String) → Names s (string_to_performative s)
string_to_performative-Names s = rw (chain s) (first_named-Names named s)
  where
    chain : (s : String) → string_to_performative s ≡ first_named named s
    chain s = unfold string_to_performative performative_to_string in refl

-- The names of the performatives and the performatives are the same thing: reading back the text of a
-- performative gives that performative, for all 22 of them, and a text that is read as a performative
-- other than `unknown` is the text of that performative.
pub performative-Names :
    (p : Performative) (s : String)
    → (string_to_performative (performative_to_string p) ≡ p) × Names s (string_to_performative s)
performative-Names p s =
    (string_to_performative-performative_to_string p, string_to_performative-Names s)
