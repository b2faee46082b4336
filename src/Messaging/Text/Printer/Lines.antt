-- ===== src/Messaging/Text/Printer/Lines.antt =====
-- The tokens of a whole printed message.
use Prim.Native.String.{◌++◌}
use g_agent.Base.{
  both_true, append-glue, String, List, [], ◌∷◌, ◌++◌ as ◌then◌, ◌&&◌, not, append-nil, Bool, true,
  false, if◌then◌else◌, ◌==◌, string_key, ◌≡◌, refl, subst, Bool-cases, inl, inr,
}
use g_agent.Messaging.Message.{AgentIdentifier, Performative, unknown, AclMessage}
use g_agent.Messaging.Performatives.{performative_to_string}
use g_agent.Messaging.Text.Tokens.{
  Param, param_sender, param_receiver, param_content, param_reply_with, param_in_reply_to,
  param_language, param_encoding, param_ontology, param_protocol, param_conversation_id, Token,
  lparen, rparen, kw, param, str, keywords, find_word,
}
use g_agent.Messaging.Text.Lexer.{next, strip_prefix, first_param}
use g_agent.Messaging.Text.Lexer.Reading.{
  Scans, here, skips, gets, Scans-Scans, Scans-word, Scans-literal, is_word_text,
}
use g_agent.Messaging.Text.Printer.{
  sender_line, receiver_lines, content_line, word_line, to_string, agent_id_to_string,
}
use g_agent.Messaging.Text.Printer.Scanning.{
  is_value, agent_is_plain, Reads, Reads-newline, Reads-rparen, Reads-lparen, Reads-word_line,
  Reads-agent_id_to_string, value_tokens, agent_tokens,
}

abbrev pub is_performative : Performative → Bool
is_performative unknown = false
is_performative _ = true

Scans-performative :
    (p : Performative) (rest : String)
    → is_performative p ≡ true
    → Scans (performative_to_string p ++ ("\n" ++ rest)) (kw p ∷ []) rest
Scans-performative p rest h =
    Scans-Scans
      (subst (λ t. Scans (performative_to_string p ++ ("\n" ++ rest)) (t ∷ []) ("\n" ++ rest))
        (keyword p h) (word_first (performative_to_string p) (is_word p h)))
      (Reads-newline rest)
  where
    word_first :
        (s : String)
        → is_word_text s ≡ true
        → Scans (s ++ ("\n" ++ rest)) (find_word s keywords ∷ []) ("\n" ++ rest)
    word_first s e = rw (append-glue "\n" rest) (Scans-word s _ rest e refl)

    keyword :
        (p : Performative)
        → is_performative p ≡ true
        → find_word (performative_to_string p) keywords ≡ kw p
    keyword unknown h = cc
    keyword _ h = unfold find_word performative_to_string in refl

    is_word :
        (p : Performative)
        → is_performative p ≡ true
        → is_word_text (performative_to_string p) ≡ true
    is_word unknown h = cc
    is_word _ h = unfold performative_to_string in refl

-- No name, or a name and addresses that are words.
abbrev pub sender_is_plain : AgentIdentifier → Bool
sender_is_plain aid = if aid.name == "" then true else agent_is_plain aid

abbrev pub sender_tokens : AgentIdentifier → List Token
sender_tokens aid = if aid.name == "" then [] else param param_sender ∷ agent_tokens aid

Reads-agent_line :
    (aid : AgentIdentifier)
    → agent_is_plain aid ≡ true
    → Reads (λ x. agent_id_to_string aid ("\n" ++ x)) (agent_tokens aid)
Reads-agent_line aid h x =
    subst (λ ts. Scans (agent_id_to_string aid ("\n" ++ x)) ts x) (append-nil (agent_tokens aid))
      (Scans-Scans (Reads-agent_id_to_string aid h ("\n" ++ x)) (Reads-newline x))

Reads-sender : Reads (λ x. " :sender " ++ x) (param param_sender ∷ [])
unfolding next strip_prefix first_param
Reads-sender x = rw (append-glue " :sender " x) (skips refl (gets refl (skips refl here)))

Reads-receiver : Reads (λ x. " :receiver " ++ x) (param param_receiver ∷ [])
unfolding next strip_prefix first_param
Reads-receiver x = rw (append-glue " :receiver " x) (skips refl (gets refl (skips refl here)))

Reads-content : Reads (λ x. " :content " ++ x) (param param_content ∷ [])
unfolding next strip_prefix first_param
Reads-content x = rw (append-glue " :content " x) (skips refl (gets refl (skips refl here)))

-- The label of a parameter whose value is a word.
abbrev label : Param → String
label param_language = " :language "
label param_encoding = " :encoding "
label param_ontology = " :ontology "
label param_protocol = " :protocol "
label param_conversation_id = " :conversation-id "
label param_reply_with = " :reply-with "
label param_in_reply_to = " :in-reply-to "
label _ = ""

abbrev has_label : Param → Bool
has_label p = not (label p == "")

Reads-label : (p : Param) → has_label p ≡ true → Reads (λ x. label p ++ x) (param p ∷ [])
unfolding next strip_prefix first_param
Reads-label param_language h x =
    rw (append-glue " :language " x) (skips refl (gets refl (skips refl here)))
Reads-label param_encoding h x =
    rw (append-glue " :encoding " x) (skips refl (gets refl (skips refl here)))
Reads-label param_ontology h x =
    rw (append-glue " :ontology " x) (skips refl (gets refl (skips refl here)))
Reads-label param_protocol h x =
    rw (append-glue " :protocol " x) (skips refl (gets refl (skips refl here)))
Reads-label param_conversation_id h x =
    rw (append-glue " :conversation-id " x) (skips refl (gets refl (skips refl here)))
Reads-label param_reply_with h x =
    rw (append-glue " :reply-with " x) (skips refl (gets refl (skips refl here)))
Reads-label param_in_reply_to h x =
    rw (append-glue " :in-reply-to " x) (skips refl (gets refl (skips refl here)))
Reads-label _ h x = cc

Reads-value :
    (p : Param) (v : String)
    → has_label p ≡ true
    → is_value v ≡ true
    → Reads (word_line (label p) v) (value_tokens p v)
Reads-value p v h e = Reads-word_line (label p) p v (Reads-label p h) e

Reads-sender_line :
    (aid : AgentIdentifier)
    → sender_is_plain aid ≡ true
    → Reads (sender_line aid) (sender_tokens aid)
unfolding sender_line
Reads-sender_line aid h rest = elim (Bool-cases (aid.name == "")) [
  | inl empty ↦ rw empty here
  | inr full ↦ rw full (Scans-Scans (Reads-sender _) (Reads-agent_line aid (rw full at h) rest))
]

abbrev pub receiver_tokens : List AgentIdentifier → List Token
receiver_tokens [] = []
receiver_tokens (r ∷ rs) = param param_receiver ∷ (agent_tokens r then receiver_tokens rs)

abbrev pub all_agents : List AgentIdentifier → Bool
all_agents [] = true
all_agents (r ∷ rs) = agent_is_plain r && all_agents rs

Reads-receiver_lines :
    (rs : List AgentIdentifier)
    → all_agents rs ≡ true
    → Reads (receiver_lines rs) (receiver_tokens rs)
unfolding receiver_lines
Reads-receiver_lines [] h x = here
Reads-receiver_lines (r ∷ rs) h x =
    let (first, rest) = both_true (agent_is_plain r) (all_agents rs) h in
    Scans-Scans (Reads-receiver _)
      (Scans-Scans (Reads-agent_line r first _) (Reads-receiver_lines rs rest x))

abbrev pub content_tokens : String → List Token
content_tokens c = if c == "" then [] else param param_content ∷ str c ∷ []

Reads-content_line : (c : String) → Reads (content_line c) (content_tokens c)
unfolding content_line
Reads-content_line c x = elim (Bool-cases (c == "")) [
  | inl empty ↦ rw empty here
  | inr full ↦
      rw full (
        Scans-Scans (Reads-content _) (Scans-Scans (Scans-literal c ("\n" ++ x)) (Reads-newline x)))
]

-- The message is written in words: its names, addresses and parameters are word tokens, the
-- parameters and the sender may be missing, and the content is any text.
pub record Wordy (m : AclMessage) : Type 0 where
  pub performative_ok : is_performative m.performative ≡ true
  pub sender_ok : sender_is_plain m.sender ≡ true
  pub receivers_ok : all_agents m.receivers ≡ true
  pub language_ok : is_value m.language ≡ true
  pub encoding_ok : is_value m.encoding ≡ true
  pub ontology_ok : is_value m.ontology ≡ true
  pub protocol_ok : is_value m.protocol ≡ true
  pub conversation_id_ok : is_value m.conversation_id ≡ true
  pub reply_with_ok : is_value m.reply_with ≡ true
  pub in_reply_to_ok : is_value m.in_reply_to ≡ true

abbrev pub message_tokens : AclMessage → List Token
message_tokens m =
    lparen
    ∷ kw m.performative
    ∷ (sender_tokens m.sender
        then (receiver_tokens m.receivers
            then (content_tokens m.content
                then (value_tokens param_language m.language
                    then (value_tokens param_encoding m.encoding
                        then (value_tokens param_ontology m.ontology
                            then (value_tokens param_protocol m.protocol
                                then (value_tokens param_conversation_id m.conversation_id
                                    then (value_tokens param_reply_with m.reply_with
                                        then (value_tokens param_in_reply_to m.in_reply_to
                                            then (rparen ∷ [])))))))))))

pub Scans-to_string : (m : AclMessage) → Wordy m → Scans (to_string m) (message_tokens m) ""
unfolding to_string
Scans-to_string m w = Scans-Scans (Reads-lparen _) (
    Scans-Scans (Scans-performative m.performative _ w.performative_ok) (
      Scans-Scans (Reads-sender_line m.sender w.sender_ok _) (
        Scans-Scans (Reads-receiver_lines m.receivers w.receivers_ok _) (
          Scans-Scans (Reads-content_line m.content _) (
            Scans-Scans (Reads-value param_language m.language refl w.language_ok _) (
              Scans-Scans (Reads-value param_encoding m.encoding refl w.encoding_ok _) (
                Scans-Scans (Reads-value param_ontology m.ontology refl w.ontology_ok _) (
                  Scans-Scans (Reads-value param_protocol m.protocol refl w.protocol_ok _) (
                    Scans-Scans
                      (Reads-value param_conversation_id m.conversation_id refl w.conversation_id_ok
                        _)
                      (Scans-Scans
                        (Reads-value param_reply_with m.reply_with refl w.reply_with_ok _)
                        (Scans-Scans
                          (Reads-value param_in_reply_to m.in_reply_to refl w.in_reply_to_ok _)
                          (Reads-rparen ""))))))))))))
