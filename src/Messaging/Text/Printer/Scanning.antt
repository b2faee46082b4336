-- ===== src/Messaging/Text/Printer/Scanning.antt =====
-- What the lexer makes of the lines of a printed message.
use Prim.Native.String.{◌++◌}
use g_agent.Base.{
  both_true, not-false, append-glue, String, List, [], ◌∷◌, ◌++◌ as ◌then◌, ◌&&◌, ◌||◌, not, map,
  Bool, true, false, if◌then◌else◌, ◌==◌, string_key, ◌≡◌, refl, subst, Bool-cases, inl, inr,
}
use g_agent.Messaging.Message.{AgentIdentifier}
use g_agent.Messaging.Text.Tokens.{
  Param, param_name, param_addresses, Token, lparen, rparen, kw_agent_identifier, kw_sequence,
  param, word, keywords, find_word,
}
use g_agent.Messaging.Text.Lexer.{next, take_chars, strip_prefix, first_param, is_word}
use g_agent.Messaging.Text.Lexer.Reading.{
  Scans, here, skips, gets, Scans-Scans, Scans-word, is_word_text,
}
use g_agent.Messaging.Text.Printer.{address_items, address_part, agent_id_to_string, word_line}

abbrev is_no_keyword : String → List (String × Token) → Bool
is_no_keyword s [] = true
is_no_keyword s ((k, t) ∷ ks) = not (s == k) && is_no_keyword s ks

-- A word token: letters, digits and `_-.@:/`, the first a letter or a digit, and no keyword.
unfoldable pub is_plain : String → Bool
is_plain s = is_word_text s && is_no_keyword s keywords

find_word-is_no_keyword :
    (s : String) (ks : List (String × Token)) → is_no_keyword s ks ≡ true → find_word s ks ≡ word s
unfolding find_word
find_word-is_no_keyword s [] h = refl
find_word-is_no_keyword s ((k, t) ∷ ks) h =
    let (first, rest) = both_true (not (s == k)) (is_no_keyword s ks) h in
    rw (not-false (s == k) first) (find_word-is_no_keyword s ks rest)

-- The text starts with a character that ends a word.
abbrev breaks : String → Bool
breaks String.[] = false
breaks (String.◌∷◌ c s) = not (is_word c)

Scans-plain : (s t : String) → is_plain s ≡ true → breaks t ≡ true → Scans (s ++ t) (word s ∷ []) t
unfolding is_plain
Scans-plain s String.[] h e = cc
Scans-plain s (String.◌∷◌ d r) h e =
    let (text, free) = both_true (is_word_text s) (is_no_keyword s keywords) h in
    subst (λ t. Scans (s ++ String.◌∷◌ d r) (t ∷ []) (String.◌∷◌ d r))
      (find_word-is_no_keyword s keywords free) (Scans-word s d r text (not-false (is_word d) e))

-- Whatever is behind it, the piece of text has the tokens `ts`.
abbrev pub Reads : (String → String) → List Token → Type 0
Reads f ts = (rest : String) → Scans (f rest) ts rest

pub Reads-Reads :
    {f g : String → String} {ts us : List Token}
    → Reads f ts
    → Reads g us
    → Reads (λ x. f (g x)) (ts then us)
Reads-Reads h k rest = Scans-Scans (h _) (k rest)

pub Reads-newline : Reads (λ x. "\n" ++ x) []
unfolding next
Reads-newline x = rw (append-glue "\n" x) (skips refl here)

pub Reads-rparen : Reads (λ x. ")" ++ x) (rparen ∷ [])
unfolding next
Reads-rparen x = rw (append-glue ")" x) (gets refl here)

pub Reads-lparen : Reads (λ x. "(" ++ x) (lparen ∷ [])
unfolding next
Reads-lparen x = rw (append-glue "(" x) (gets refl here)

-- The values that a parameter may have: none, or a plain word.
abbrev pub is_value : String → Bool
is_value v = v == "" || is_plain v

abbrev pub value_tokens : Param → String → List Token
value_tokens p v = if v == "" then [] else param p ∷ word v ∷ []

pub Reads-word_line :
    (label : String) (p : Param) (v : String)
    → Reads (λ x. label ++ x) (param p ∷ [])
    → is_value v ≡ true
    → Reads (word_line label v) (value_tokens p v)
unfolding word_line
Reads-word_line label p v h e rest = elim (Bool-cases (v == "")) [
  | inl empty ↦ rw empty here
  | inr full ↦ rw full (
      Scans-Scans (h (v ++ ("\n" ++ rest))) (
        Scans-Scans (Scans-plain v ("\n" ++ rest) (rw full at e) (rw (append-glue "\n" rest) refl))
          (Reads-newline rest)))
]

unfoldable pub all_plain : List String → Bool
all_plain [] = true
all_plain (a ∷ more) = is_plain a && all_plain more

breaks-address_items : (l : List String) (x : String) → breaks (address_items l (")" ++ x)) ≡ true
unfolding address_items
breaks-address_items [] x = rw (append-glue ")" x) refl
breaks-address_items (a ∷ l) x = rw (append-glue " " (a ++ address_items l (")" ++ x))) refl

Scans-address :
    {a : String} (l : List String) (x : String) {ts : List Token}
    → is_plain a ≡ true
    → Scans (address_items l (")" ++ x)) ts x
    → Scans (a ++ address_items l (")" ++ x)) (word a ∷ ts) x
Scans-address {a} l x h k = Scans-Scans (Scans-plain a _ h (breaks-address_items l x)) k

Reads-address_items :
    (l : List String)
    → all_plain l ≡ true
    → Reads (λ x. address_items l (")" ++ x)) (map word l then (rparen ∷ []))
unfolding address_items next all_plain
Reads-address_items [] h x = Reads-rparen x
Reads-address_items (a ∷ l) h x =
    let (first, rest) = both_true (is_plain a) (all_plain l) h in
    rw (append-glue " " (a ++ address_items l (")" ++ x)))
      (skips refl (Scans-address l x first (Reads-address_items l rest x)))

abbrev pub address_tokens : List String → List Token
address_tokens [] = []
address_tokens (a ∷ l) =
    param param_addresses ∷ lparen ∷ kw_sequence ∷ (map word (a ∷ l) then (rparen ∷ []))

Reads-address_part :
    (l : List String) → all_plain l ≡ true → Reads (address_part l) (address_tokens l)
unfolding address_part address_items all_plain next strip_prefix first_param find_word take_chars
Reads-address_part [] h x = here
Reads-address_part (a ∷ l) h x =
    let (first, rest) = both_true (is_plain a) (all_plain l) h in
    let items = a ++ address_items l (")" ++ x) in
    rw (append-glue " :addresses (sequence" (" " ++ items), append-glue " " items)
      (skips refl (
        gets refl (
          skips refl (
            gets refl
              (gets refl (skips refl (Scans-address l x first (Reads-address_items l rest x))))))))

breaks-address_part : (l : List String) (x : String) → breaks (address_part l (")" ++ x)) ≡ true
unfolding address_part
breaks-address_part [] x = rw (append-glue ")" x) refl
breaks-address_part (a ∷ l) x =
    rw (append-glue " :addresses (sequence" (address_items (a ∷ l) (")" ++ (")" ++ x)))) refl

-- The name and the addresses are words.
unfoldable pub agent_is_plain : AgentIdentifier → Bool
agent_is_plain aid = is_plain aid.name && all_plain aid.addresses

abbrev pub agent_tokens : AgentIdentifier → List Token
agent_tokens aid =
    lparen
    ∷ kw_agent_identifier
    ∷ param param_name
    ∷ word aid.name
    ∷ (address_tokens aid.addresses then (rparen ∷ []))

pub Reads-agent_id_to_string :
    (aid : AgentIdentifier)
    → agent_is_plain aid ≡ true
    → Reads (agent_id_to_string aid) (agent_tokens aid)
unfolding agent_id_to_string agent_is_plain next strip_prefix first_param find_word take_chars
Reads-agent_id_to_string aid h x =
    let (name, addresses) = both_true (is_plain aid.name) (all_plain aid.addresses) h in
    rw (append-glue "(agent-identifier :name " (aid.name ++ address_part aid.addresses (")" ++ x)))
      (gets refl (
        gets refl (
          skips refl (
            gets refl (
              skips refl (
                Scans-Scans (Scans-plain aid.name _ name (breaks-address_part aid.addresses x)) (
                  Scans-Scans (Reads-address_part aid.addresses addresses (")" ++ x))
                    (Reads-rparen x))))))))
