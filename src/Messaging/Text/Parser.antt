-- ===== src/Messaging/Text/Parser.antt =====
-- The parser of src/messaging/fipa_acl.y, src/messaging/FipaAclDriver.cpp and `ACLMessage::parse`.
-- The LALR parser is an automaton with one move for a token; a place is what its stack says is
-- behind the token that was read last. The grammar has no rule for errors, so the first token without
-- a move ends the parse, and so does a text that is not all tokens.
pub mod Running
pub mod Errors
use Prim.Native.String.{◌++◌}
use mathlib.Core.Option
use g_agent.Base.{
  String, List, [], ◌∷◌, ◌++◌ as ◌then◌, ◌==◌, string_key, Option, none, some, if◌then◌else◌, map,
}
use g_agent.Messaging.Message.{
  AgentIdentifier, agent_id, Performative, unknown, AclMessage, acl_message,
}
use g_agent.Messaging.Text.Tokens.{
  Param, param_sender, param_receiver, param_content, param_reply_with, param_in_reply_to,
  param_reply_by, param_language, param_encoding, param_ontology, param_protocol,
  param_conversation_id, param_name, param_addresses, param_resolvers, Token, lparen, rparen, kw,
  kw_agent_identifier, kw_set, kw_sequence, param, word, str,
}
use g_agent.Messaging.Text.Lexer.{Lexed, spent, bad_char, lexed, tokens_of}

-- What an `agent_identifier` is part of. The resolvers of an identifier are identifiers too; the
-- text is the name of the one they are for.
pub data Holder : Type 0 where
  for_sender for_receiver : Holder
  for_set : List AgentIdentifier → Holder
  for_resolver : Holder → String → Holder

-- In `in_nested` the texts are the expressions read in each open parenthesis, the innermost first.
pub data Place : Type 0 where
  at_start want_performative in_params at_finish : Place
  want_expression : Param → Place
  in_nested : Param → List String → Place
  want_protocol want_receivers open_receivers : Place
  in_set : List AgentIdentifier → Place
  want_agent open_agent want_name want_name_word : Holder → Place
  in_agent want_urls open_urls in_urls want_resolvers open_resolvers in_resolvers :
      Holder → String → Place

-- `driver.result`, and the value of `performative`, which the rule of `message` stores at the end.
pub record Parse : Type 0 where
  pub chosen : Performative
  pub result : AclMessage
  pub place : Place

-- `FipaAclDriver::parse` starts on an empty message.
abbrev pub parse_start : Parse
parse_start = record { chosen = unknown; result = acl_message unknown; place = at_start }

abbrev pub at_place : Place → Parse → Parse
at_place q s = record s { place = q }

-- The actions of the parameters with an expression; `:reply-by` has none.
abbrev pub set_value : Param → String → AclMessage → AclMessage
set_value param_content v m = record m { content = v }
set_value param_language v m = record m { language = v }
set_value param_encoding v m = record m { encoding = v }
set_value param_ontology v m = record m { ontology = v }
set_value param_protocol v m = record m { protocol = v }
set_value param_conversation_id v m = record m { conversation_id = v }
set_value param_reply_with v m = record m { reply_with = v }
set_value param_in_reply_to v m = record m { in_reply_to = v }
set_value _ v m = m

abbrev pub reduce_param : Param → String → Parse → Parse
reduce_param p v s = record s { result = set_value p v s.result; place = in_params }

-- `driver.result.addReceiver` for each.
unfoldable pub add_receivers : List AgentIdentifier → Parse → Parse
add_receivers rs s = record s {
  result = record s.result { receivers = s.result.receivers then rs };
}

-- `nested_exprs : nested_exprs expression`
unfoldable join_nested : String → String → String
join_nested seen e = if seen == "" then e else seen ++ (" " ++ e)

-- An expression is complete in the parentheses that are open, or with none open for its parameter.
reduce_expression : Param → List String → String → Parse → Parse
unfolding join_nested
reduce_expression p [] e s = reduce_param p e s
reduce_expression p (seen ∷ outer) e s = at_place (in_nested p (join_nested seen e ∷ outer)) s

-- `agent_identifier` is complete.
unfoldable pub reduce_agent : Holder → String → Parse → Parse
unfolding add_receivers
reduce_agent for_sender n s = record s {
  result = record s.result { sender = agent_id n };
  place = in_params;
}
reduce_agent for_receiver n s = at_place in_params (add_receivers (agent_id n ∷ []) s)
reduce_agent (for_set rs) n s = at_place (in_set (rs then (agent_id n ∷ []))) s
reduce_agent (for_resolver h outer) n s = at_place (in_resolvers h outer) s

-- After the token of a parameter.
abbrev param_place : Param → Option Place
param_place param_sender = some (want_agent for_sender)
param_place param_receiver = some want_receivers
param_place param_protocol = some want_protocol
param_place param_name = none
param_place param_addresses = none
param_place param_resolvers = none
param_place p = some (want_expression p)

-- A token in the list of parameters.
abbrev move_params : Token → Parse → Option Parse
move_params rparen s = some (at_place at_finish s)
move_params (param p) s = Option.map (λ q. at_place q s) (param_place p)
move_params t s = none

-- A token where `expression` is wanted, inside the given open parentheses.
move_expression : Param → List String → Token → Parse → Option Parse
unfolding reduce_expression
move_expression p around (word e) s = some (reduce_expression p around e s)
move_expression p around (str e) s = some (reduce_expression p around e s)
move_expression p around lparen s = some (at_place (in_nested p ("" ∷ around)) s)
move_expression p around t s = none

move_nested : Param → List String → Token → Parse → Option Parse
unfolding reduce_expression move_expression
move_nested p (seen ∷ outer) rparen s = some (reduce_expression p outer ("(" ++ (seen ++ ")")) s)
move_nested p [] rparen s = none
move_nested p around t s = move_expression p around t s

-- A token that must be `(`.
abbrev expect_paren : Token → Place → Parse → Option Parse
expect_paren lparen q s = some (at_place q s)
expect_paren t q s = none

abbrev expect_sequence : Token → Place → Parse → Option Parse
expect_sequence kw_sequence q s = some (at_place q s)
expect_sequence t q s = none

abbrev move_start : Token → Parse → Option Parse
move_start (kw p) s = some (record s { chosen = p; place = in_params })
move_start t s = none

abbrev move_protocol : Token → Parse → Option Parse
move_protocol (word v) s = some (reduce_param param_protocol v s)
move_protocol t s = none

-- Behind `:receiver (`.
abbrev move_receivers : Token → Parse → Option Parse
move_receivers kw_agent_identifier s = some (at_place (want_name for_receiver) s)
move_receivers kw_set s = some (at_place (want_agent (for_set [])) s)
move_receivers t s = none

move_set : List AgentIdentifier → Token → Parse → Option Parse
unfolding add_receivers
move_set rs lparen s = some (at_place (open_agent (for_set rs)) s)
move_set rs rparen s = some (at_place in_params (add_receivers rs s))
move_set rs t s = none

abbrev move_identifier : Holder → Token → Parse → Option Parse
move_identifier h kw_agent_identifier s = some (at_place (want_name h) s)
move_identifier h t s = none

abbrev move_name : Holder → Token → Parse → Option Parse
move_name h (param param_name) s = some (at_place (want_name_word h) s)
move_name h t s = none

abbrev move_name_word : Holder → Token → Parse → Option Parse
move_name_word h (word n) s = some (at_place (in_agent h n) s)
move_name_word h t s = none

-- `agent_id_params`
move_agent : Holder → String → Token → Parse → Option Parse
unfolding reduce_agent
move_agent h n rparen s = some (reduce_agent h n s)
move_agent h n (param param_addresses) s = some (at_place (want_urls h n) s)
move_agent h n (param param_resolvers) s = some (at_place (want_resolvers h n) s)
move_agent h n t s = none

-- `url_list`: no action keeps a URL.
abbrev move_urls : Holder → String → Token → Parse → Option Parse
move_urls h n (word u) s = some s
move_urls h n (str u) s = some s
move_urls h n rparen s = some (at_place (in_agent h n) s)
move_urls h n t s = none

abbrev move_resolvers : Holder → String → Token → Parse → Option Parse
move_resolvers h n lparen s = some (at_place (open_agent (for_resolver h n)) s)
move_resolvers h n rparen s = some (at_place (in_agent h n) s)
move_resolvers h n t s = none

unfoldable pub move_at : Place → Token → Parse → Option Parse
unfolding move_expression move_nested move_set move_agent
move_at at_start t s = expect_paren t want_performative s
move_at want_performative t s = move_start t s
move_at in_params t s = move_params t s
move_at at_finish t s = none
move_at (want_expression p) t s = move_expression p [] t s
move_at (in_nested p around) t s = move_nested p around t s
move_at want_protocol t s = move_protocol t s
move_at want_receivers t s = expect_paren t open_receivers s
move_at open_receivers t s = move_receivers t s
move_at (in_set rs) t s = move_set rs t s
move_at (want_agent h) t s = expect_paren t (open_agent h) s
move_at (open_agent h) t s = move_identifier h t s
move_at (want_name h) t s = move_name h t s
move_at (want_name_word h) t s = move_name_word h t s
move_at (in_agent h n) t s = move_agent h n t s
move_at (want_urls h n) t s = expect_paren t (open_urls h n) s
move_at (open_urls h n) t s = expect_sequence t (in_urls h n) s
move_at (in_urls h n) t s = move_urls h n t s
move_at (want_resolvers h n) t s = expect_paren t (open_resolvers h n) s
move_at (open_resolvers h n) t s = expect_sequence t (in_resolvers h n) s
move_at (in_resolvers h n) t s = move_resolvers h n t s

-- The end of the input: only `message END` is accepted.
abbrev pub accept : Place → Parse → Option AclMessage
accept at_finish s = some (record s.result { performative = s.chosen })
accept q s = none

unfoldable pub parse_tokens : Parse → List Token → Option AclMessage
unfolding move_at
parse_tokens s [] = accept s.place s
parse_tokens s (t ∷ ts) = Option.bind (move_at s.place t s) (λ next. parse_tokens next ts)

-- A text with a character that no rule takes is refused.
abbrev pub parse_lexed : Lexed → Option AclMessage
parse_lexed spent = none
parse_lexed bad_char = none
parse_lexed (lexed ts) = parse_tokens parse_start ts

unfoldable pub parse : String → Option AclMessage
parse input = parse_lexed (tokens_of input)
