-- ===== src/Messaging/Text/RoundTrip.antt =====
-- Printing a message and reading the text back.
use mathlib.Core.Option
use g_agent.Base.{[], ◌∷◌, suc, some, ◌≡◌, refl, true, ap, ◌∙◌, append-nil, zero, arith}
use g_agent.Messaging.Message.{agent_id, AclMessage, acl_message, unknown}
use g_agent.Messaging.Text.Tokens.{
  param_language, param_encoding, param_ontology, param_protocol, param_conversation_id,
  param_reply_with, param_in_reply_to, rparen,
}
use g_agent.Messaging.Text.Lexer.{lexed, lex, next, size, tokens_of}
use g_agent.Messaging.Text.Lexer.Reading.{LexesTo, Scans-LexesTo}
use g_agent.Messaging.Text.Parser.{
  parse_lexed, parse, parse_tokens, parse_start, set_value, move_at,
}
use g_agent.Messaging.Text.Parser.Running.{
  names_only, Moves-value, Moves-content, Moves-sender, Moves-receivers,
}
use g_agent.Messaging.Text.Printer.{to_string}
use g_agent.Messaging.Text.Printer.Lines.{Wordy, message_tokens, Scans-to_string}
use g_agent.Messaging.Text.Printer.Clean.{nul_free, until_nul-nul_free, to_string-nul_free}

-- The message without the addresses of its agents.
abbrev pub without_addresses : AclMessage → AclMessage
without_addresses m = record m {
  sender = agent_id m.sender.name;
  receivers = names_only m.receivers;
}

tokens_of-to_string :
    (m : AclMessage)
    → Wordy m
    → nul_free m.content ≡ true
    → tokens_of (to_string m) ≡ lexed (message_tokens m)
unfolding tokens_of
tokens_of-to_string m w h =
    ap (λ t. lex (suc (size t)) t) (until_nul-nul_free (to_string m) (to_string-nul_free m w h))
    ∙ Scans-LexesTo (Scans-to_string m w) at_end_of_text (suc (size (to_string m))) (omega arith)
    ∙ ap lexed (append-nil (message_tokens m))
  where
    at_end_of_text : LexesTo "" []
    at_end_of_text zero k = absurd (omega arith)
    at_end_of_text (suc f) k = unfold lex next in refl

parse_tokens-message_tokens :
    (m : AclMessage) → parse_tokens parse_start (message_tokens m) ≡ some (without_addresses m)
unfolding parse_tokens move_at Option.bind
parse_tokens-message_tokens m =
    let c = m.performative in
    let m0 : AclMessage = acl_message unknown in
    let m1 : AclMessage = record m0 { sender = agent_id m.sender.name } in
    let m2 : AclMessage = record m1 { receivers = names_only m.receivers } in
    let m3 : AclMessage = record m2 { content = m.content } in
    let m4 = set_value param_language m.language m3 in
    let m5 = set_value param_encoding m.encoding m4 in
    let m6 = set_value param_ontology m.ontology m5 in
    let m7 = set_value param_protocol m.protocol m6 in
    let m8 = set_value param_conversation_id m.conversation_id m7 in
    let m9 = set_value param_reply_with m.reply_with m8 in
    Moves-sender c m0 m.sender refl _
    ∙ Moves-receivers c m1 m.receivers _
    ∙ Moves-content c m2 m.content refl _
    ∙ Moves-value c m3 param_language m.language (λ u us. refl) refl _
    ∙ Moves-value c m4 param_encoding m.encoding (λ u us. refl) refl _
    ∙ Moves-value c m5 param_ontology m.ontology (λ u us. refl) refl _
    ∙ Moves-value c m6 param_protocol m.protocol (λ u us. refl) refl _
    ∙ Moves-value c m7 param_conversation_id m.conversation_id (λ u us. refl) refl _
    ∙ Moves-value c m8 param_reply_with m.reply_with (λ u us. refl) refl _
    ∙ Moves-value c m9 param_in_reply_to m.in_reply_to (λ u us. refl) refl (rparen ∷ [])

-- The text of a message is read back as that message without the addresses of its agents, if it is
-- written in words (`Wordy`) and its content, which may be any text with quotes, backslashes, line
-- ends and parentheses, has no NUL character.
pub parse-to_string :
    (m : AclMessage)
    → Wordy m
    → nul_free m.content ≡ true
    → parse (to_string m) ≡ some (without_addresses m)
unfolding parse Option.bind
parse-to_string m w h = ap parse_lexed (tokens_of-to_string m w h) ∙ parse_tokens-message_tokens m
