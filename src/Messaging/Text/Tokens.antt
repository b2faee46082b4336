-- ===== src/Messaging/Text/Tokens.antt =====
-- The tokens of fipa_acl.y, and the rules of fipa_acl.l that recognise fixed texts.
use g_agent.Base.{String, List, [], ◌∷◌, if◌then◌else◌, ◌==◌, string_key}
use g_agent.Messaging.Message.{
  Performative, accept_proposal, agree, cancel, cfp, confirm, disconfirm, failure, inform,
  inform_if, inform_ref, not_understood, propagate, propose, proxy, query_ref, refuse,
  reject_proposal, request, request_when, request_whenever, subscribe,
}

pub data Param : Type 0 where
  param_sender param_receiver param_content param_reply_with param_in_reply_to param_reply_by
        param_language param_encoding param_ontology param_protocol param_conversation_id param_name
        param_addresses param_resolvers :
      Param

-- The end of the input is the end of the list of tokens.
pub data Token : Type 0 where
  lparen rparen : Token
  kw : Performative → Token
  kw_agent_identifier kw_set kw_sequence : Token
  param : Param → Token
  word : String → Token
  str : String → Token

abbrev pub param_texts : List (String × Param)
param_texts =
    (":sender", param_sender)
    ∷ (":receiver", param_receiver)
    ∷ (":content", param_content)
    ∷ (":reply-with", param_reply_with)
    ∷ (":in-reply-to", param_in_reply_to)
    ∷ (":reply-by", param_reply_by)
    ∷ (":language", param_language)
    ∷ (":encoding", param_encoding)
    ∷ (":ontology", param_ontology)
    ∷ (":protocol", param_protocol)
    ∷ (":conversation-id", param_conversation_id)
    ∷ (":name", param_name)
    ∷ (":addresses", param_addresses)
    ∷ (":resolvers", param_resolvers)
    ∷ []

abbrev pub keywords : List (String × Token)
keywords =
    ("accept-proposal", kw accept_proposal)
    ∷ ("agree", kw agree)
    ∷ ("cancel", kw cancel)
    ∷ ("cfp", kw cfp)
    ∷ ("confirm", kw confirm)
    ∷ ("disconfirm", kw disconfirm)
    ∷ ("failure", kw failure)
    ∷ ("inform-if", kw inform_if)
    ∷ ("inform-ref", kw inform_ref)
    ∷ ("inform", kw inform)
    ∷ ("not-understood", kw not_understood)
    ∷ ("propagate", kw propagate)
    ∷ ("propose", kw propose)
    ∷ ("proxy", kw proxy)
    ∷ ("query-ref", kw query_ref)
    ∷ ("refuse", kw refuse)
    ∷ ("reject-proposal", kw reject_proposal)
    ∷ ("request-when", kw request_when)
    ∷ ("request-whenever", kw request_whenever)
    ∷ ("request", kw request)
    ∷ ("subscribe", kw subscribe)
    ∷ ("agent-identifier", kw_agent_identifier)
    ∷ ("set", kw_set)
    ∷ ("sequence", kw_sequence)
    ∷ []

-- The keyword that a word is, or else the word.
unfoldable pub find_word : String → List (String × Token) → Token
find_word s [] = word s
find_word s ((k, t) ∷ ks) = if s == k then t else find_word s ks
