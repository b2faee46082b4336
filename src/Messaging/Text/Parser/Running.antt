-- ===== src/Messaging/Text/Parser/Running.antt =====
-- What the automaton of fipa_acl.y does with the tokens of each part of a message.
use mathlib.Core.Option
use g_agent.Base.{
  String, List, [], ◌∷◌, ◌++◌ as ◌then◌, if◌then◌else◌, ◌==◌, string_key, eq_iff, map, append_assoc,
  append-nil, ◌≡◌, refl, sym, ap, ◌∙◌, Bool-cases, inl, inr,
}
use g_agent.Messaging.Message.{AgentIdentifier, agent_id, Performative, AclMessage}
use g_agent.Messaging.Text.Tokens.{
  Param, param_receiver, param_content, param_name, Token, rparen, param, word,
}
use g_agent.Messaging.Text.Parser.{
  Holder, for_sender, for_receiver, in_params, want_name, in_agent, in_urls, Parse, at_place,
  set_value, reduce_agent, add_receivers, move_at, parse_tokens,
}
use g_agent.Messaging.Text.Printer.Scanning.{address_tokens, agent_tokens, value_tokens}
use g_agent.Messaging.Text.Printer.Lines.{sender_tokens, receiver_tokens, content_tokens}

-- Reading the tokens leads from one state to the other, whatever tokens follow.
abbrev pub Moves : Parse → List Token → Parse → Type 0
Moves s ts r = (us : List Token) → parse_tokens s (ts then us) ≡ parse_tokens r us

-- In the list of parameters, with what is read so far.
abbrev pub reading : Performative → AclMessage → Parse
reading p m = record { chosen = p; result = m; place = in_params }

pub Moves-value :
    (c : Performative) (m : AclMessage) (p : Param) (v : String)
    → ((u : String) → Moves (reading c m) (param p ∷ word u ∷ []) (reading c (set_value p u m)))
    → set_value p "" m ≡ m
    → Moves (reading c m) (value_tokens p v) (reading c (set_value p v m))
Moves-value c m p v h e us = elim (Bool-cases (v == "")) [
  | inl empty ↦ rw empty (
      ap (λ w. parse_tokens (reading c w) us)
        (sym (ap (λ u. set_value p u m) ((eq_iff v "").0 empty) ∙ e)))
  | inr full ↦ rw full (h v us)
]

pub Moves-content :
    (c : Performative) (m : AclMessage) (v : String)
    → m.content ≡ ""
    → Moves (reading c m) (content_tokens v) (reading c (set_value param_content v m))
unfolding parse_tokens move_at Option.bind
Moves-content c m v e us = elim (Bool-cases (v == "")) [
  | inl empty ↦ rw empty (
      ap (λ u. parse_tokens (reading c (set_value param_content u m)) us)
        (e ∙ sym ((eq_iff v "").0 empty)))
  | inr full ↦ rw full refl
]

Moves-urls :
    (l : List String) (h : Holder) (n : String) (s : Parse)
    → Moves (at_place (in_urls h n) s) (map word l then (rparen ∷ [])) (at_place (in_agent h n) s)
unfolding parse_tokens move_at Option.bind
Moves-urls [] h n s us = refl
Moves-urls (a ∷ l) h n s us = Moves-urls l h n s us

Moves-addresses :
    (l : List String) (h : Holder) (n : String) (s : Parse)
    → Moves (at_place (in_agent h n) s) (address_tokens l) (at_place (in_agent h n) s)
unfolding parse_tokens move_at Option.bind
Moves-addresses [] h n s us = refl
Moves-addresses (a ∷ l) h n s us = Moves-urls (a ∷ l) h n s us

-- Behind `(agent-identifier`: the addresses are read and forgotten.
Moves-named :
    (aid : AgentIdentifier) (h : Holder) (s : Parse)
    → Moves
        (at_place (want_name h) s)
        (param param_name ∷ word aid.name ∷ (address_tokens aid.addresses then (rparen ∷ [])))
        (reduce_agent h aid.name (at_place (in_agent h aid.name) s))
unfolding parse_tokens move_at Option.bind
Moves-named aid h s us =
    ap (parse_tokens (at_place (in_agent h aid.name) s))
      (append_assoc (address_tokens aid.addresses) (rparen ∷ []) us)
    ∙ Moves-addresses aid.addresses h aid.name s (rparen ∷ us)

pub Moves-sender :
    (c : Performative) (m : AclMessage) (aid : AgentIdentifier)
    → m.sender ≡ agent_id ""
    → Moves (reading c m) (sender_tokens aid) (reading c (record m { sender = agent_id aid.name }))
unfolding parse_tokens move_at Option.bind reduce_agent
Moves-sender c m aid e us = elim (Bool-cases (aid.name == "")) [
  | inl empty ↦ rw empty (
      ap (λ a. parse_tokens (reading c (record m { sender = a })) us)
        (e ∙ ap agent_id (sym ((eq_iff aid.name "").0 empty))))
  | inr full ↦ rw full (Moves-named aid for_sender (reading c m) us)
]

-- The identifiers without their addresses.
abbrev pub names_only : List AgentIdentifier → List AgentIdentifier
names_only rs = map (λ r. agent_id r.name) rs

pub Moves-receivers :
    (c : Performative) (m : AclMessage) (rs : List AgentIdentifier)
    → Moves
        (reading c m)
        (receiver_tokens rs)
        (reading c (record m { receivers = m.receivers then names_only rs }))
unfolding parse_tokens move_at Option.bind reduce_agent add_receivers
Moves-receivers c m [] us =
    ap (λ l. parse_tokens (reading c (record m { receivers = l })) us)
      (sym (append-nil m.receivers))
Moves-receivers c m (r ∷ rs) us =
    let more : AclMessage = record m { receivers = m.receivers then (agent_id r.name ∷ []) } in
    ap (parse_tokens (reading c m))
      (append_assoc (param param_receiver ∷ agent_tokens r) (receiver_tokens rs) us)
    ∙ Moves-named r for_receiver (reading c m) (receiver_tokens rs then us)
    ∙ Moves-receivers c more rs us
    ∙ ap (λ l. parse_tokens (reading c (record m { receivers = l })) us)
        (append_assoc m.receivers (agent_id r.name ∷ []) (names_only rs))
