-- ===== src/Tests/Texts.antt =====
-- Runs of the printer, lexer and parser of messages, and the theorems about them at these runs.
use mathlib.Core.Option
use g_agent.Base.{true, String, [], ◌∷◌, none, some, ◌≡◌, refl, arith}
use g_agent.Messaging.Message.{agent_id, AclMessage, acl_message, inform, request, cfp}
use g_agent.Messaging.Quoting.{read_body}
use g_agent.Messaging.Text.Tokens.{find_word, lparen, rparen, kw, param, param_content, str, word}
use g_agent.Messaging.Text.Lexer.{
  lex, next, take_chars, strip_prefix, first_param, until_nul, tokens_of,
}
use g_agent.Messaging.Text.Lexer.Fuel.{Lexes, has_ended, lex-tokens_of}
use g_agent.Messaging.Text.Parser.{parse, parse_tokens, parse_start, move_at}
use g_agent.Messaging.Text.Parser.Errors.{parse_tokens-more}
use g_agent.Messaging.Text.Printer.{to_string}
use g_agent.Messaging.Text.Printer.Scanning.{is_plain, all_plain, agent_is_plain}
use g_agent.Messaging.Text.Printer.Lines.{Wordy}
use g_agent.Messaging.Text.RoundTrip.{without_addresses, parse-to_string}

abbrev pub offer : AclMessage
offer = record (acl_message inform) {
  sender = record { name = "alice@host"; addresses = "tcp://10.0.0.1:5555" ∷ [] };
  receivers = agent_id "bob" ∷ record { name = "carol"; addresses = "ipc:x" ∷ "ipc:y" ∷ [] } ∷ [];
  content = "say \"(hi)\"\nto all";
  protocol = "fipa-request";
  conversation_id = "conv-1";
}

pub offer-Wordy : Wordy offer
unfolding is_plain all_plain agent_is_plain
offer-Wordy = record {
  performative_ok = refl;
  sender_ok = refl;
  receivers_ok = refl;
  language_ok = refl;
  encoding_ok = refl;
  ontology_ok = refl;
  protocol_ok = refl;
  conversation_id_ok = refl;
  reply_with_ok = refl;
  in_reply_to_ok = refl;
}

parse-to_string_example : parse (to_string offer) ≡ some (without_addresses offer)
parse-to_string_example = parse-to_string offer offer-Wordy refl

abbrev short : String
short = "(cfp :content (a (b \"c d\")))"

lex-tokens_of_example :
    Lexes (until_nul short) (tokens_of short)
    × (has_ended (tokens_of short) ≡ true)
    × (lex 60 (until_nul short) ≡ tokens_of short)
lex-tokens_of_example = lex-tokens_of 60 short (unfold until_nul in omega arith)

-- A set of receivers, and parentheses in an expression.
to_two :
    parse
      "(request :receiver (set (agent-identifier :name a) (agent-identifier :name b)) :content (x (y \"z z\")) )"
    ≡ some (record (acl_message request) {
      receivers = agent_id "a" ∷ agent_id "b" ∷ [];
      content = "(x (y z z))";
    })
unfolding parse parse_tokens move_at tokens_of lex next take_chars strip_prefix first_param
    find_word until_nul read_body Option.bind Option.map
to_two = refl

-- An agent that is named like a keyword is printed, and the text is refused.
keyword_name : parse (to_string (record (acl_message cfp) { sender = agent_id "agree" })) ≡ none
unfolding parse parse_tokens move_at tokens_of lex next take_chars strip_prefix first_param
    find_word until_nul read_body Option.bind Option.map to_string
keyword_name = refl

open_literal : parse "(cfp :content \"" ≡ none
unfolding parse parse_tokens move_at tokens_of lex next take_chars strip_prefix first_param
    find_word until_nul read_body Option.bind Option.map to_string
open_literal = refl

parse_tokens-more_example :
    parse_tokens parse_start
      (lparen ∷ kw cfp ∷ param param_content ∷ str "x" ∷ rparen ∷ word "more" ∷ [])
    ≡ none
parse_tokens-more_example =
    parse_tokens-more parse_start (lparen ∷ kw cfp ∷ param param_content ∷ str "x" ∷ rparen ∷ [])
      (record (acl_message cfp) { content = "x" }) (word "more") []
      (unfold parse_tokens move_at Option.bind in refl)
