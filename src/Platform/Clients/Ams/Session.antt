-- ===== src/Platform/Clients/Ams/Session.antt =====
-- The client of src/platform/AMSClient.cpp on a connection to the server of platform/ams/AMS.cpp.
use Prim.Native.String.{◌++◌}
use text.Mathlib.TextLemmas.{append_assoc, append-nil}
use g_agent.Base.{
  ℕ, String, Bool, true, false, ◌&&◌, not, some, if◌then◌else◌, ◌==◌, string_key, eq_iff, both_true,
  not-false, ◌≡◌, refl, sym, ap, ◌∙◌, Bool-cases, inl, inr, ℤ, negsuc,
}
use g_agent.Platform.Input.{input, to_string}
use g_agent.Platform.Input.Words.{
  is_one_word, read_word-append, read_word-next, read_word-last, read_word-command, ends_word-blank,
}
use g_agent.Platform.Input.Numbers.{is_int, read_int-next}
use g_agent.Platform.Ams.{AgentRecord, find_agent}
use g_agent.Platform.Ams.Server.{
  Master, dash, agent_line, is_dead, serve_lookup, found, command_of, serve_command, handle_client,
}
use g_agent.Platform.Clients.{Server, read_line, is_ok, behind_ok, returns}
use g_agent.Platform.Clients.Lines.{
  OneLine, OneLine-append, word-OneLine, to_string-OneLine, read_line-append, request-line,
  is_ok-append, behind_ok-append,
}
use g_agent.Platform.Clients.Ams.{AgentInfo, read_info, looked_up, lookup_agent}

-- A connection that the server accepts.
unfoldable pub serve : (ℤ → Bool) → ℕ → String → Server Master
unfolding handle_client
serve alive now peer_ip text m = some (handle_client alive now peer_ip (read_line text).0 m)

-- A slave's address in a record: none, or a word that is not the dash that stands for none.
abbrev pub is_slave : String → Bool
is_slave ip = if ip == "" then true else is_one_word ip && not (ip == "-")

-- The fields are words, so that a reader of the text finds their ends.
pub record Readable (r : AgentRecord) : Type 0 where
  pub name_ok : is_one_word r.name ≡ true
  pub pid_ok : is_int r.pid ≡ true
  pub address_ok : is_one_word r.address ≡ true
  pub state_ok : is_one_word r.state ≡ true
  pub slave_ok : is_slave r.slave_ip ≡ true

abbrev pub info_of : AgentRecord → AgentInfo
info_of r = record {
  name = r.name;
  address = r.address;
  pid = r.pid;
  state = r.state;
  slave_ip = r.slave_ip;
}

abbrev pub agent_text : AgentRecord → String
agent_text r =
    r.name ++ " " ++ to_string r.pid ++ " " ++ r.address ++ " " ++ r.state ++ " " ++ dash r.slave_ip

pub agent_line-text :
    (r : AgentRecord) (x : String) → agent_line r ++ x ≡ agent_text r ++ ("\n" ++ x)
unfolding agent_line
agent_line-text r x = simp append_assoc

pub dash-word : (ip : String) → is_slave ip ≡ true → is_one_word (dash ip) ≡ true
dash-word ip h = elim (Bool-cases (ip == "")) [
  | inl e ↦ rw e refl
  | inr e ↦ rw e (both_true (is_one_word ip) (not (ip == "-")) (rw e at h)).0
]

pub undash-dash : (ip : String) → is_slave ip ≡ true → (if dash ip == "-" then "" else dash ip) ≡ ip
undash-dash ip h = elim (Bool-cases (ip == "")) [
  | inl e ↦ rw e (sym ((eq_iff ip "").0 e))
  | inr e ↦
      rw (e, not-false (ip == "-") (both_true (is_one_word ip) (not (ip == "-")) (rw e at h)).1)
        refl
]

blank : OneLine " "
blank = record { no_break = refl }

pub agent_text-OneLine : (r : AgentRecord) → Readable r → OneLine (agent_text r)
agent_text-OneLine r h = OneLine-append (word-OneLine r.name h.name_ok) (
    OneLine-append blank (
      OneLine-append (to_string-OneLine r.pid) (
        OneLine-append blank (
          OneLine-append (word-OneLine r.address h.address_ok) (
            OneLine-append blank (
              OneLine-append (word-OneLine r.state h.state_ok) (
                OneLine-append blank
                  (word-OneLine (dash r.slave_ip) (dash-word r.slave_ip h.slave_ok)))))))))

pub read_info-agent_text : (r : AgentRecord) → Readable r → read_info (agent_text r) ≡ info_of r
unfolding read_info
read_info-agent_text r h =
    let t4 = " " ++ dash r.slave_ip in
    let t3 = r.state ++ t4 in
    let t2 = r.address ++ (" " ++ t3) in
    let t1 = to_string r.pid ++ (" " ++ t2) in
    rw (read_word-append r.name (" " ++ t1) "" h.name_ok (ends_word-blank t1)) (
      rw (read_int-next r.pid (negsuc 0) t2 h.pid_ok) (
        rw (read_word-next r.address (" " ++ t3) "" h.address_ok (ends_word-blank t3)) (
          rw (read_word-next r.state t4 "" h.state_ok (ends_word-blank (dash r.slave_ip))) (
            rw (read_word-last (dash r.slave_ip) "" (dash-word r.slave_ip h.slave_ok)) (
              ap (λ ip. record (info_of r) { slave_ip = ip })
                (undash-dash r.slave_ip h.slave_ok))))))

-- The server's part: the command is the first word of the line.
module _ (alive : ℤ → Bool) (now : ℕ) (peer_ip : String) where
  pub handle_client-command :
      (cmd t : String) (m : Master)
      → is_one_word cmd ≡ true
      → handle_client alive now peer_ip ((cmd ++ " ") ++ t) m
        ≡ serve_command alive (command_of cmd) now peer_ip (input (" " ++ t)) m
  unfolding handle_client
  handle_client-command cmd t m h =
      ap (λ p. serve_command alive (command_of p.0) now peer_ip p.1 m)
        (read_word-command cmd t "" h)

  handle_client-lookup :
      (r : AgentRecord) (m : Master)
      → Readable r
      → find_agent r.name m.ams ≡ some r
      → is_dead alive r ≡ false
      → handle_client alive now peer_ip ("LOOKUP " ++ r.name) m ≡ ("OK " ++ agent_line r, m)
  unfolding serve_command command_of serve_lookup
  handle_client-lookup r m h e live =
      handle_client-command "LOOKUP" r.name m refl
      ∙ ap (λ p. found alive p.0 (find_agent p.0 m.ams) m) (read_word-last r.name "" h.name_ok)
      ∙ ap (λ o. found alive r.name o m) e
      ∙ rw live refl

  pub serve-line :
      (line reply : String) (m after : Master)
      → OneLine line
      → handle_client alive now peer_ip line m ≡ (reply, after)
      → serve alive now peer_ip (line ++ "\n") m ≡ some (reply, after)
  unfolding serve
  serve-line line reply m after h e =
      ap (λ p. some (handle_client alive now peer_ip p.0 m)) (read_line-append line "" h)
      ∙ ap some e

  pub lookup_agent-known :
      (r : AgentRecord) (m : Master)
      → Readable r
      → find_agent r.name m.ams ≡ some r
      → is_dead alive r ≡ false
      → lookup_agent (serve alive now peer_ip) r.name m ≡ (returns (some (info_of r)), m)
  unfolding lookup_agent
  lookup_agent-known r m h e live =
      let ok : OneLine "OK " = record { no_break = refl } in
      let lookup_line : OneLine "LOOKUP " = record { no_break = refl } in
      let reply = "OK " ++ agent_text r in
      let served : serve alive now peer_ip (("LOOKUP " ++ r.name) ++ "\n") m
          ≡ some (reply ++ ("\n" ++ ""), m) =
        serve-line ("LOOKUP " ++ r.name) _ m m
          (OneLine-append lookup_line (word-OneLine r.name h.name_ok))
          (handle_client-lookup r m h e live)
        ∙ ap (λ t. some (t, m))
            (sym (append-nil ("OK " ++ agent_line r))
              ∙ append_assoc "OK " (agent_line r) ""
              ∙ ap (λ t. "OK " ++ t) (agent_line-text r "")
              ∙ sym (append_assoc "OK " (agent_text r) "\n")) in
      ap (λ p. (looked_up (is_ok p.0) (behind_ok p.0), p.1))
        (request-line (serve alive now peer_ip) ("LOOKUP " ++ r.name) reply "" m m served
          (OneLine-append ok (agent_text-OneLine r h)))
      ∙ rw (is_ok-append (agent_text r), behind_ok-append (agent_text r))
          (ap (λ i. (returns (some i), m)) (read_info-agent_text r h))
