-- ===== src/Protocols/ContractNet/Decisions.antt =====
-- What the loop over the proposals of ContractNet.hpp sends.
use mathlib.Core.Path.{fun_ext}
use g_agent.Base.{
  same_text, Bool, not, is_empty, refl, String, List, [], ◌∷◌, ◌++◌, if◌then◌else◌, ◌==◌,
  string_key, keep, map, ◌≡◌, sym, ap, ◌∙◌, append-nil, append_assoc, Bool-cases, inl, inr,
}
use g_agent.Messaging.Message.{AclMessage, agent_id, accept_proposal, reject_proposal, create_reply}
use g_agent.Messaging.Transport.{Mailbox}
use g_agent.Protocols.ContractNet.{selected, decision, decide}

-- The proposals of an agent.
abbrev pub offers_of : String → List AclMessage → List AclMessage
offers_of n ms = keep (λ m. m.sender.name == n) ms

-- The name stands in the list.
abbrev pub is_chosen : String → List String → Bool
is_chosen n chosen = not (is_empty (keep (λ c. c == n) chosen))

-- What the agent of a proposal is to be told, every field written out.
abbrev pub verdict : String → List String → AclMessage → AclMessage
verdict my_name chosen m = record {
  performative = if is_chosen m.sender.name chosen then accept_proposal else reject_proposal;
  sender = agent_id my_name;
  receivers = m.sender ∷ [];
  content = "";
  language = m.language;
  encoding = "";
  ontology = m.ontology;
  protocol = m.protocol;
  conversation_id = m.conversation_id;
  reply_with = "";
  in_reply_to = m.reply_with;
}

selected-is_chosen : (n : String) (chosen : List String) → selected n chosen ≡ is_chosen n chosen
selected-is_chosen n [] = refl
selected-is_chosen n (c ∷ cs) = elim (Bool-cases (c == n)) [
  | inl e ↦ rw e refl
  | inr e ↦ rw e (selected-is_chosen n cs)
]

decision-verdict :
    (my_name : String) (chosen : List String) (m : AclMessage)
    → decision my_name chosen m ≡ verdict my_name chosen m
unfolding decision create_reply
decision-verdict my_name chosen m =
    rw (selected-is_chosen m.sender.name chosen) (rw (same_text m.reply_with) refl)

module _ {S : Type 0} (box : Mailbox S) where
  open box use {transport, inbox, inbox-send}

  decide-inbox :
      (my_name : String) (chosen : List String) (ms : List AclMessage) (accepted : List String)
      (s : S) (k : String)
      → inbox k (decide transport my_name chosen ms accepted s).1
        ≡ inbox k s ++ map (decision my_name chosen) (offers_of k ms)
  unfolding decide
  decide-inbox my_name chosen [] accepted s k = sym (append-nil (inbox k s))
  decide-inbox my_name chosen (m ∷ ms) accepted s k =
      let d = decision my_name chosen m in
      let sent = inbox-send m.sender.name k d s in
      let later =
        decide-inbox my_name chosen ms
          (if selected m.sender.name chosen then accepted ++ m.sender.name ∷ [] else accepted)
          (transport.send m.sender.name d s).1 k in
      let rest = map (decision my_name chosen) (offers_of k ms) in
      elim (Bool-cases (m.sender.name == k)) [
        | inl e ↦
            let here : inbox k (transport.send m.sender.name d s).1 ≡ inbox k s ++ d ∷ [] =
              sent ∙ rw e in
            later ∙ (ap (λ l. l ++ rest) here ∙ (append_assoc (inbox k s) (d ∷ []) rest ∙ rw e))
        | inr e ↦
            let here : inbox k (transport.send m.sender.name d s).1 ≡ inbox k s = sent ∙ rw e in
            later ∙ (ap (λ l. l ++ rest) here ∙ rw e)
      ]

  decide-accepted :
      (my_name : String) (chosen : List String) (ms : List AclMessage) (accepted : List String)
      (s : S)
      → (decide transport my_name chosen ms accepted s).0
        ≡ accepted ++ map (λ m. m.sender.name) (keep (λ m. selected m.sender.name chosen) ms)
  unfolding decide
  decide-accepted my_name chosen [] accepted s = sym (append-nil accepted)
  decide-accepted my_name chosen (m ∷ ms) accepted s =
      elim (Bool-cases (selected m.sender.name chosen)) [
        | inl e ↦
            decide-accepted my_name chosen ms _ _
            ∙ (rw e (
                append_assoc accepted (m.sender.name ∷ [])
                  (map (λ m. m.sender.name) (keep (λ m. selected m.sender.name chosen) ms))))
        | inr e ↦ decide-accepted my_name chosen ms _ _ ∙ rw e
      ]

  -- Over any transport with the laws of a mailbox, the loop over the proposals leaves for each agent, in
  -- order and behind what was waiting for it, one answer for each of its proposals: an ACCEPT-PROPOSAL
  -- if the agent's name is in the selection, else a REJECT-PROPOSAL, from the initiator to the agent,
  -- with the conversation, protocol, language and ontology of the proposal and the reference to it. The
  -- accepted names are those of the proposals from selected agents, in order, behind the ones that were
  -- accepted before.
  pub decide_lem :
      (my_name : String) (chosen : List String) (ms : List AclMessage) (accepted : List String)
      (s : S)
      → ((k : String)
          → inbox k (decide transport my_name chosen ms accepted s).1
            ≡ inbox k s ++ map (verdict my_name chosen) (offers_of k ms))
        × ((decide transport my_name chosen ms accepted s).0
            ≡ accepted ++ map (λ m. m.sender.name) (keep (λ m. is_chosen m.sender.name chosen) ms))
  decide_lem my_name chosen ms accepted s = (
    λ k.
        decide-inbox my_name chosen ms accepted s k
        ∙ ap (λ f. inbox k s ++ map f (offers_of k ms)) (fun_ext (decision-verdict my_name chosen)),
    decide-accepted my_name chosen ms accepted s
        ∙ ap (λ f. accepted ++ map (λ m. m.sender.name) (keep f ms))
            (fun_ext λ m. selected-is_chosen m.sender.name chosen),
  )
