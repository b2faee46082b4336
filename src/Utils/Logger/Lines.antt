-- ===== src/Utils/Logger/Lines.antt =====
-- The lines of the log of include/gagent/utils/Logger.hpp.
use Prim.Native.Char.{Char, code}
use Prim.Native.String.{◌++◌}
use mathlib.Core.Option
use text.Mathlib.TextLemmas.{nil-append, append-nil, append_assoc}
use g_agent.Platform.Config.{lines_of}
use g_agent.Platform.Config.RoundTrip.{lines_of-front}
use g_agent.Base.{
  ℕ, ◌/◌, ◌%◌, String, List, [], ◌∷◌, Bool, true, false, some, if◌then◌else◌, ltb, ◌==◌, nat_key,
  map, All, ◌≡◌, refl, sym, ap, ◌∙◌, Bool-cases, inl, inr,
}
use g_agent.Platform.Clients.Lines.{has_no_break, OneLine, OneLine-append}
use g_agent.Utils.Logger.{
  Logger, hex_digit, escape_char, json_escape, json_fields, json_event, log_json, append_to,
}

no_break_if :
    (b : Bool) (s t : String)
    → has_no_break s ≡ true
    → has_no_break t ≡ true
    → has_no_break (if b then s else t) ≡ true
no_break_if true s t h k = h
no_break_if false s t h k = k

hex_digit-OneLine : (n : ℕ) → OneLine (hex_digit n)
unfolding hex_digit
hex_digit-OneLine n = record {
  no_break = no_break_if (n == 0) "0" _ refl (
      no_break_if (n == 1) "1" _ refl (
        no_break_if (n == 2) "2" _ refl (
          no_break_if (n == 3) "3" _ refl (
            no_break_if (n == 4) "4" _ refl (
              no_break_if (n == 5) "5" _ refl (
                no_break_if (n == 6) "6" _ refl (
                  no_break_if (n == 7) "7" _ refl (
                    no_break_if (n == 8) "8" _ refl (
                      no_break_if (n == 9) "9" _ refl (
                        no_break_if (n == 10) "a" _ refl (
                          no_break_if (n == 11) "b" _ refl (
                            no_break_if (n == 12) "c" _ refl (
                              no_break_if (n == 13) "d" _ refl
                                (no_break_if (n == 14) "e" "f" refl refl))))))))))))));
}

escape_char-OneLine : (c : Char) (rest : String) → OneLine rest → OneLine (escape_char c rest)
unfolding escape_char
escape_char-OneLine c rest h = elim (Bool-cases (code c == 34)) [
  | inl e ↦ rw e (record { no_break = h.no_break })
  | inr a ↦ elim (Bool-cases (code c == 92)) [
    | inl e ↦ rw (a, e) (record { no_break = h.no_break })
    | inr b ↦ elim (Bool-cases (code c == 10)) [
      | inl e ↦ rw (a, b, e) (record { no_break = h.no_break })
      | inr n ↦ elim (Bool-cases (code c == 13)) [
        | inl e ↦ rw (a, b, n, e) (record { no_break = h.no_break })
        | inr r ↦ elim (Bool-cases (code c == 9)) [
          | inl e ↦ rw (a, b, n, r, e) (record { no_break = h.no_break })
          | inr d ↦ elim (Bool-cases (ltb (code c) 32)) [
            | inl e ↦
                rw (a, b, n, r, d, e)
                  (OneLine-append (record { no_break = refl })
                    (OneLine-append (hex_digit-OneLine (code c / 16))
                      (OneLine-append (hex_digit-OneLine (code c % 16)) h)))
            | inr e ↦ rw (a, b, n, r, d, e) (record { no_break = rw n h.no_break })
          ]
        ]
      ]
    ]
  ]
]

json_escape-OneLine : (s : String) → OneLine (json_escape s)
unfolding json_escape
json_escape-OneLine String.[] = record { no_break = refl }
json_escape-OneLine (String.◌∷◌ c s) = escape_char-OneLine c (json_escape s) (json_escape-OneLine s)

-- A call of `logJson`: the text of the time, the event and its fields.
pub record Entry : Type 0 where
  pub now : String
  pub event : String
  pub fields : List (String × String)

-- The time and the names of the fields have no line breaks; the event and the values may have any text.
pub record Loggable (e : Entry) : Type 0 where
  pub now_ok : OneLine e.now
  pub names_ok : All (λ f. OneLine f.0) e.fields

abbrev pub entry_text : Entry → String
entry_text e = json_event e.now e.event e.fields

abbrev pub log_all : List Entry → Logger → Logger
log_all [] l = l
log_all (e ∷ es) l = log_all es (log_json e.now e.event e.fields l)

json_fields-OneLine :
    (l : List (String × String)) → All (λ f. OneLine f.0) l → OneLine (json_fields l)
unfolding json_fields
json_fields-OneLine [] h = record { no_break = refl }
json_fields-OneLine ((k, v) ∷ l) (h, hs) =
    OneLine-append (record { no_break = refl })
      (OneLine-append h (
        OneLine-append (record { no_break = refl })
          (OneLine-append (json_escape-OneLine v)
            (OneLine-append (record { no_break = refl }) (json_fields-OneLine l hs)))))

entry_text-OneLine : (e : Entry) → Loggable e → OneLine (entry_text e)
unfolding json_event
entry_text-OneLine e h =
    OneLine-append (record { no_break = refl })
      (OneLine-append h.now_ok (
        OneLine-append (record { no_break = refl })
          (OneLine-append (json_escape-OneLine e.event) (
            OneLine-append (record { no_break = refl })
              (OneLine-append (json_fields-OneLine e.fields h.names_ok)
                (record { no_break = refl }))))))

-- The lines that `getline` reads out of what is appended to a file.
written : List Entry → String
written [] = ""
written (e ∷ es) = entry_text e ++ ("\n" ++ written es)

log_all-written :
    (es : List Entry) (l : Logger) (old : String)
    → l.json_file ≡ some old
    → (log_all es l).json_file ≡ some (old ++ written es)
unfolding written log_json
log_all-written [] l old h = h ∙ ap (λ t. some t) (sym (append-nil old))
log_all-written (e ∷ es) l old h =
    log_all-written es (log_json e.now e.event e.fields l) (old ++ (entry_text e ++ "\n"))
      (ap (λ o. append_to o (entry_text e ++ "\n")) h)
    ∙ ap (λ t. some t)
        (append_assoc old (entry_text e ++ "\n") (written es)
          ∙ ap (λ t. old ++ t) (append_assoc (entry_text e) "\n" (written es)))

lines_of-written : (es : List Entry) → All Loggable es → lines_of (written es) ≡ map entry_text es
unfolding written
lines_of-written [] h = unfold lines_of in refl
lines_of-written (e ∷ es) (h, hs) =
    lines_of-front (entry_text e) (written es) (entry_text-OneLine e h).no_break
    ∙ ap (λ l. entry_text e ∷ l) (lines_of-written es hs)

-- The file of JSON lines has one line for each event, whatever the events and their values say: after
-- any calls on a file that is open and empty, `getline` reads one object for each call out of it, in
-- order. The texts of the time and the names of the fields have no line breaks.
pub log_all-lines_of :
    (es : List Entry) (l : Logger)
    → l.json_file ≡ some ""
    → All Loggable es
    → Option.map lines_of (log_all es l).json_file ≡ some (map entry_text es)
log_all-lines_of es l h k =
    ap (Option.map lines_of) (log_all-written es l "" h)
    ∙ ap (λ t. some (lines_of t)) (nil-append (written es))
    ∙ ap (λ l. some l) (lines_of-written es k)
