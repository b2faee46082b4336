-- ===== src/Messaging/Text/Printer/Clean.antt =====
-- The NUL characters of a printed message: `c_str()` ends a text at the first.
use Prim.Native.Char.{Char, code}
use Prim.Native.String.{◌++◌}
use text.Mathlib.TextLemmas.{cons-append, nil-append}
use g_agent.Base.{
  both_true, not-false, ℕ, String, List, [], ◌∷◌, ◌&&◌, ◌||◌, not, leb, Bool, true, false, ◌==◌,
  nat_key, string_key, nat_beq_iff, ◌≡◌, refl, sym, ap, ◌∙◌, Bool-cases, inl, inr,
}
use g_agent.Messaging.Message.{AgentIdentifier, Performative, accept_proposal, AclMessage}
use g_agent.Messaging.Performatives.{performative_to_string}
use g_agent.Messaging.Quoting.{
  escape_string, escape_loop, escape_char, quote, backslash, newline, tabulator,
}
use g_agent.Messaging.Text.Lexer.{is_word, is_alnum, until_nul}
use g_agent.Messaging.Text.Lexer.Reading.{is_word_text, word_chars}
use g_agent.Messaging.Text.Printer.{
  address_items, address_part, agent_id_to_string, sender_line, receiver_lines, content_line,
  word_line, to_string,
}
use g_agent.Messaging.Text.Printer.Scanning.{is_plain, is_value, all_plain, agent_is_plain}
use g_agent.Messaging.Text.Printer.Lines.{sender_is_plain, all_agents, Wordy}

abbrev pub nul_free : String → Bool
nul_free String.[] = true
nul_free (String.◌∷◌ c s) = not (code c == 0) && nul_free s

pub until_nul-nul_free : (s : String) → nul_free s ≡ true → until_nul s ≡ s
unfolding until_nul
until_nul-nul_free String.[] h = refl
until_nul-nul_free (String.◌∷◌ c s) h =
    let (first, rest) = both_true (not (code c == 0)) (nul_free s) h in
    rw (not-false (code c == 0) first) (ap (String.◌∷◌ c) (until_nul-nul_free s rest))

nul_free-append : (s t : String) → nul_free s ≡ true → nul_free t ≡ true → nul_free (s ++ t) ≡ true
nul_free-append String.[] t h k = rw (nil-append t) k
nul_free-append (String.◌∷◌ c s) t h k =
    let (first, rest) = both_true (not (code c == 0)) (nul_free s) h in
    rw (cons-append c s t) (rw first (nul_free-append s t rest k))

abbrev word_code : ℕ → Bool
word_code n =
    ((leb 48 n && leb n 57) || (leb 65 n && leb n 90) || (leb 97 n && leb n 122))
    || n == 95
    || n == 45
    || n == 46
    || n == 64
    || n == 58
    || n == 47

is_word-nul_free : (c : Char) → is_word c ≡ true → not (code c == 0) ≡ true
is_word-nul_free c h = elim (Bool-cases (code c == 0)) [
  | inr g ↦ rw g refl
  | inl g ↦ absurd (false-true (ap word_code (sym ((nat_beq_iff (code c) 0).0 g)) ∙ h))
]
  where
    false-true : false ≡ true → ⊥
    false-true h = cc

word_chars-nul_free : (s : String) → word_chars s ≡ true → nul_free s ≡ true
word_chars-nul_free String.[] h = refl
word_chars-nul_free (String.◌∷◌ c s) h =
    let (first, rest) = both_true (is_word c) (word_chars s) h in
    rw (is_word-nul_free c first) (word_chars-nul_free s rest)

is_plain-nul_free : (s : String) → is_plain s ≡ true → nul_free s ≡ true
unfolding is_plain
is_plain-nul_free String.[] h = refl
is_plain-nul_free (String.◌∷◌ c s) h =
    let text = (both_true (is_word_text (String.◌∷◌ c s)) _ h).0 in
    let (first, rest) = both_true (is_alnum c) (word_chars s) text in
    word_chars-nul_free (String.◌∷◌ c s) (rw (first, rest) refl)

escape_char-nul_free :
    (c : Char) (s : String)
    → not (code c == 0) ≡ true
    → nul_free s ≡ true
    → nul_free (escape_char c s) ≡ true
unfolding escape_char
escape_char-nul_free c s h k = elim (Bool-cases (code c == code quote)) [
  | inl e ↦ rw e k
  | inr a ↦ elim (Bool-cases (code c == code backslash)) [
    | inl e ↦ rw (a, e) k
    | inr b ↦ elim (Bool-cases (code c == code newline)) [
      | inl e ↦ rw (a, b, e) k
      | inr d ↦ elim (Bool-cases (code c == code tabulator)) [
        | inl e ↦ rw (a, b, d, e) k
        | inr g ↦ rw (a, b, d, g) (rw h k)
      ]
    ]
  ]
]

escape_loop-nul_free : (s : String) → nul_free s ≡ true → nul_free (escape_loop s) ≡ true
unfolding escape_loop
escape_loop-nul_free String.[] h = refl
escape_loop-nul_free (String.◌∷◌ c s) h =
    let (first, rest) = both_true (not (code c == 0)) (nul_free s) h in
    escape_char-nul_free c (escape_loop s) first (escape_loop-nul_free s rest)

-- The piece of text has no NUL character, so what follows it decides.
record NulFree (s : String) : Type 0 where
  is_free : nul_free s ≡ true

abbrev Clean : (String → String) → Type 0
Clean f = (rest : String) → NulFree rest → NulFree (f rest)

Clean-append : (s : String) → nul_free s ≡ true → Clean (λ x. s ++ x)
Clean-append s h x k = record { is_free = nul_free-append s x h k.is_free }

Clean-address_items : (l : List String) → all_plain l ≡ true → Clean (address_items l)
unfolding address_items all_plain
Clean-address_items [] h x k = k
Clean-address_items (a ∷ l) h x k =
    let (first, rest) = both_true (is_plain a) (all_plain l) h in
    Clean-append " " refl _
      (Clean-append a (is_plain-nul_free a first) _ (Clean-address_items l rest x k))

Clean-address_part : (l : List String) → all_plain l ≡ true → Clean (address_part l)
unfolding address_part
Clean-address_part [] h x k = k
Clean-address_part (a ∷ l) h x k =
    Clean-append " :addresses (sequence" refl _
      (Clean-address_items (a ∷ l) h _ (Clean-append ")" refl x k))

-- An identifier and the end of its line.
Clean-agent :
    (aid : AgentIdentifier)
    → agent_is_plain aid ≡ true
    → Clean (λ x. agent_id_to_string aid ("\n" ++ x))
unfolding agent_id_to_string agent_is_plain
Clean-agent aid h x k =
    let (name, addresses) = both_true (is_plain aid.name) (all_plain aid.addresses) h in
    Clean-append "(agent-identifier :name " refl _ (
      Clean-append aid.name (is_plain-nul_free aid.name name) _ (
        Clean-address_part aid.addresses addresses _
          (Clean-append ")" refl _ (Clean-append "\n" refl x k))))

Clean-sender_line : (aid : AgentIdentifier) → sender_is_plain aid ≡ true → Clean (sender_line aid)
unfolding sender_line
Clean-sender_line aid h x k = elim (Bool-cases (aid.name == "")) [
  | inl empty ↦ rw empty k
  | inr full ↦ rw full (Clean-append " :sender " refl _ (Clean-agent aid (rw full at h) x k))
]

Clean-receiver_lines :
    (rs : List AgentIdentifier) → all_agents rs ≡ true → Clean (receiver_lines rs)
unfolding receiver_lines
Clean-receiver_lines [] h x k = k
Clean-receiver_lines (r ∷ rs) h x k =
    let (first, rest) = both_true (agent_is_plain r) (all_agents rs) h in
    Clean-append " :receiver " refl _ (Clean-agent r first _ (Clean-receiver_lines rs rest x k))

Clean-content_line : (c : String) → nul_free c ≡ true → Clean (content_line c)
unfolding content_line escape_string
Clean-content_line c h x k = elim (Bool-cases (c == "")) [
  | inl empty ↦ rw empty k
  | inr full ↦ rw full (
      Clean-append " :content " refl _
        (Clean-append (escape_string c) (escape_loop-nul_free c h) _ (Clean-append "\n" refl x k)))
]

Clean-word_line :
    (label : String) (v : String)
    → nul_free label ≡ true
    → is_value v ≡ true
    → Clean (word_line label v)
unfolding word_line
Clean-word_line label v h e x k = elim (Bool-cases (v == "")) [
  | inl empty ↦ rw empty k
  | inr full ↦ rw full (
      Clean-append label h _
        (Clean-append v (is_plain-nul_free v (rw full at e)) _ (Clean-append "\n" refl x k)))
]

performative-nul_free : (p : Performative) → nul_free (performative_to_string p) ≡ true
unfolding performative_to_string
performative-nul_free accept_proposal = refl
performative-nul_free _ = refl

pub to_string-nul_free :
    (m : AclMessage) → Wordy m → nul_free m.content ≡ true → nul_free (to_string m) ≡ true
unfolding to_string
to_string-nul_free m w h =
    let last : NulFree ")" = record { is_free = refl } in
    let free : NulFree (to_string m) = Clean-append "(" refl _ (
      Clean-append (performative_to_string m.performative) (performative-nul_free _) _ (
        Clean-append "\n" refl _ (
          Clean-sender_line m.sender w.sender_ok _ (
            Clean-receiver_lines m.receivers w.receivers_ok _ (
              Clean-content_line m.content h _ (
                Clean-word_line " :language " m.language refl w.language_ok _ (
                  Clean-word_line " :encoding " m.encoding refl w.encoding_ok _ (
                    Clean-word_line " :ontology " m.ontology refl w.ontology_ok _ (
                      Clean-word_line " :protocol " m.protocol refl w.protocol_ok _ (
                        Clean-word_line " :conversation-id " m.conversation_id refl
                          w.conversation_id_ok _
                          (Clean-word_line " :reply-with " m.reply_with refl w.reply_with_ok _ (
                            Clean-word_line " :in-reply-to " m.in_reply_to refl w.in_reply_to_ok _
                              last)))))))))))) in
    free.is_free
