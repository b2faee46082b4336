-- ===== src/Platform/Clients/Ams/Remote.antt =====
-- The calls of src/platform/AMSClient.cpp that change the registry of platform/ams/AMS.cpp.
use Prim.Native.String.{◌++◌}
use g_agent.Base.{
  ℕ, String, Bool, true, false, ◌&&◌, not, Option, some, if◌then◌else◌, ◌==◌, string_key, eq_iff,
  insert, contains, lookup-insert_self, both_true, ◌≡◌, refl, sym, ap, ◌∙◌, Bool-cases, inl, inr, ℤ,
  negsuc,
}
use g_agent.Platform.Input.{input, read_word, to_string}
use g_agent.Platform.Input.Words.{
  is_one_word, ends_word, read_word-next, read_word-last, read_word-end, ends_word-blank,
}
use g_agent.Platform.Input.Numbers.{is_int, read_int-next}
use g_agent.Platform.Ams as AmsPart
use g_agent.Platform.Ams.{AgentRecord, Ams, find_agent}
use g_agent.Platform.Ams.Server.{
  Master, reply_if, is_dead, read_record, command_of, serve_command, handle_client,
}
use g_agent.Platform.Config.{Config, is_cluster}
use g_agent.Platform.Clients.{is_ok, request, answered, Outcome, returns}
use g_agent.Platform.Clients.Lines.{
  OneLine, OneLine-append, word-OneLine, to_string-OneLine, request-line,
}
use g_agent.Platform.Clients.Ams.{
  AgentInfo, slave_part, record_text, register_agent, deregister_agent, set_state, lookup_agent,
}
use g_agent.Platform.Clients.Ams.Session.{
  serve, is_slave, Readable, info_of, handle_client-command, serve-line, lookup_agent-known,
}

-- The record that the server makes of a client's registration.
abbrev pub given_record : String → Config → String → ℤ → String → AgentRecord
given_record peer_ip cfg name pid endpoint = record {
  name = name;
  address = endpoint;
  pid = pid;
  state = "active";
  slave_ip = if cfg.slave_ip == "" && not (peer_ip == "") then peer_ip else cfg.slave_ip;
}

-- The end of the line is read back as the slave's address, and the word in front of it ends there.
record SlaveRead (ip text : String) : Type 0 where
  ends_ok : ends_word text ≡ true
  line_ok : OneLine text
  read_ok : (read_word (input text) "").0 ≡ ip

slave_part-SlaveRead :
    (cfg : Config) → is_slave cfg.slave_ip ≡ true → SlaveRead cfg.slave_ip (slave_part cfg)
unfolding slave_part is_cluster
slave_part-SlaveRead cfg h = elim (Bool-cases (cfg.slave_ip == "")) [
  | inl e ↦ rw e (record {
    ends_ok = refl;
    line_ok = record { no_break = refl };
    read_ok = ap (λ p. p.0) (read_word-end "") ∙ sym ((eq_iff cfg.slave_ip "").0 e);
  })
  | inr e ↦
      let word : is_one_word cfg.slave_ip ≡ true =
        (both_true (is_one_word cfg.slave_ip) (not (cfg.slave_ip == "-")) (rw e at h)).0 in
      rw e (record {
        ends_ok = ends_word-blank cfg.slave_ip;
        line_ok = OneLine-append (record { no_break = refl }) (word-OneLine cfg.slave_ip word);
        read_ok = ap (λ p. p.0) (read_word-last cfg.slave_ip "" word);
      })
]

read_record-record_text :
    (peer_ip : String) (cfg : Config) (name : String) (pid : ℤ) (endpoint : String)
    → is_one_word name ≡ true
    → is_int pid ≡ true
    → is_one_word endpoint ≡ true
    → SlaveRead cfg.slave_ip (slave_part cfg)
    → read_record peer_ip (input (" " ++ record_text cfg name pid endpoint))
      ≡ given_record peer_ip cfg name pid endpoint
unfolding read_record record_text
read_record-record_text peer_ip cfg name pid endpoint n p e s =
    let t2 = endpoint ++ slave_part cfg in
    let t1 = to_string pid ++ (" " ++ t2) in
    rw (read_word-next name (" " ++ t1) "" n (ends_word-blank t1)) (
      rw (read_int-next pid (negsuc 0) t2 p)
        (rw (read_word-next endpoint (slave_part cfg) "" e s.ends_ok) (rw s.read_ok refl)))

module _ (alive : ℤ → Bool) (now : ℕ) (peer_ip : String) where
  -- A call that the server answers by OK or by an error.
  answered-reply_if :
      (line error : String) (result : Bool × Ams) (m : Master)
      → OneLine line
      → OneLine error
      → is_ok error ≡ false
      → handle_client alive now peer_ip line m ≡ reply_if (error ++ "\n") result m
      → answered (request (serve alive now peer_ip) line m)
        ≡ (result.0, record m { ams = result.1 })
  answered-reply_if line error (true, a) m l k bad e =
      let after : Master = record m { ams = a } in
      ap answered (
        request-line (serve alive now peer_ip) line "OK" "" m after
          (serve-line alive now peer_ip line "OK\n" m after l e) (record { no_break = refl }))
      ∙ unfold is_ok in refl
  answered-reply_if line error (false, a) m l k bad e =
      let after : Master = record m { ams = a } in
      ap answered (
        request-line (serve alive now peer_ip) line error "" m after
          (serve-line alive now peer_ip line (error ++ "\n") m after l e) k)
      ∙ ap (λ b. (b, after)) bad

  -- `registerAgent` over the connection does what `registerAgent` of the server does with the record
  -- that the arguments describe, and returns its answer, for a name and an endpoint that are words, a
  -- 32-bit pid, and a slave that is none or a word other than `-`.
  pub register_agent-remote :
      (cfg : Config) (name : String) (pid : ℤ) (endpoint : String) (m : Master)
      → is_one_word name ≡ true
      → is_int pid ≡ true
      → is_one_word endpoint ≡ true
      → is_slave cfg.slave_ip ≡ true
      → register_agent (serve alive now peer_ip) cfg name pid endpoint m ≡ (
          let (ok, a) = AmsPart.register_agent (given_record peer_ip cfg name pid endpoint) m.ams in
          (ok, record m { ams = a }))
  unfolding register_agent
  register_agent-remote cfg name pid endpoint m n p e s =
      let slave = slave_part-SlaveRead cfg s in
      answered-reply_if ("REGISTER " ++ record_text cfg name pid endpoint)
        "ERROR already_registered" _ m
        (OneLine-append (record { no_break = refl }) (record_line slave))
        (record { no_break = refl }) (unfold is_ok in refl)
        (handle_client-command alive now peer_ip "REGISTER" (record_text cfg name pid endpoint) m
            refl
          ∙ registered slave)
    where
      blank : OneLine " "
      blank = record { no_break = refl }

      record_line :
          SlaveRead cfg.slave_ip (slave_part cfg) → OneLine (record_text cfg name pid endpoint)
      record_line slave =
          unfold record_text in
          OneLine-append (word-OneLine name n) (
            OneLine-append blank (
              OneLine-append (to_string-OneLine pid)
                (OneLine-append blank (OneLine-append (word-OneLine endpoint e) slave.line_ok))))

      registered :
          SlaveRead cfg.slave_ip (slave_part cfg)
          → serve_command alive
              (command_of "REGISTER")
              now
              peer_ip
              (input (" " ++ record_text cfg name pid endpoint))
              m
            ≡ reply_if "ERROR already_registered\n"
                (AmsPart.register_agent (given_record peer_ip cfg name pid endpoint) m.ams)
                m
      registered slave =
          unfold command_of serve_command in
          ap (λ r. reply_if "ERROR already_registered\n" (AmsPart.register_agent r m.ams) m)
            (read_record-record_text peer_ip cfg name pid endpoint n p e slave)

  -- The same of `deregisterAgent`, for a name that is a word.
  pub deregister_agent-remote :
      (name : String) (m : Master)
      → is_one_word name ≡ true
      → deregister_agent (serve alive now peer_ip) name m
        ≡ (let (ok, a) = AmsPart.deregister_agent name m.ams in (ok, record m { ams = a }))
  unfolding deregister_agent command_of serve_command
  deregister_agent-remote name m n =
      answered-reply_if ("DEREGISTER " ++ name) "ERROR not_found" _ m
        (OneLine-append (record { no_break = refl }) (word-OneLine name n))
        (record { no_break = refl }) (unfold is_ok in refl)
        (handle_client-command alive now peer_ip "DEREGISTER" name m refl
          ∙ ap (λ p. reply_if "ERROR not_found\n" (AmsPart.deregister_agent p.0 m.ams) m)
              (read_word-last name "" n))

  -- The same of `setState`, for a name and a state that are words.
  pub set_state-remote :
      (name state : String) (m : Master)
      → is_one_word name ≡ true
      → is_one_word state ≡ true
      → set_state (serve alive now peer_ip) name state m
        ≡ (let (ok, a) = AmsPart.set_state name state m.ams in (ok, record m { ams = a }))
  unfolding set_state command_of serve_command
  set_state-remote name state m n k =
      answered-reply_if ("SETSTATE " ++ (name ++ (" " ++ state))) "ERROR not_found" _ m
        (OneLine-append (record { no_break = refl })
          (OneLine-append (word-OneLine name n)
            (OneLine-append (record { no_break = refl }) (word-OneLine state k))))
        (record { no_break = refl }) (unfold is_ok in refl)
        (handle_client-command alive now peer_ip "SETSTATE" (name ++ (" " ++ state)) m refl
          ∙ rw (read_word-next name (" " ++ state) "" n (ends_word-blank state))
              (rw (read_word-last state "" k) refl))

  -- An agent that is registered over the connection is found over it, with all that was registered:
  -- a name that is not taken is registered, and then looked up without a change of the registry. The
  -- record is one that a reader can take apart, and the process lives if the agent is local.
  pub lookup_agent-register_agent :
      (cfg : Config) (name : String) (pid : ℤ) (endpoint : String) (m : Master)
      → Readable (given_record peer_ip cfg name pid endpoint)
      → is_slave cfg.slave_ip ≡ true
      → contains name m.ams.registry ≡ false
      → is_dead alive (given_record peer_ip cfg name pid endpoint) ≡ false
      → let server = serve alive now peer_ip in
        let (ok, after) = register_agent server cfg name pid endpoint m in
        (ok ≡ true)
        × (◌≡◌ {A = Outcome (Option AgentInfo) × Master}
            (lookup_agent server name after)
            (returns (some (info_of (given_record peer_ip cfg name pid endpoint))), after))
  lookup_agent-register_agent cfg name pid endpoint m h s new live =
      let rec = given_record peer_ip cfg name pid endpoint in
      let a : Ams = record { registry = insert name rec m.ams.registry } in
      let registered : register_agent (serve alive now peer_ip) cfg name pid endpoint m
          ≡ (true, record m { ams = a }) =
        register_agent-remote cfg name pid endpoint m h.name_ok h.pid_ok h.address_ok s
        ∙ ap (λ p. (p.0, record m { ams = p.1 })) (register_new rec m new) in
      rw registered
        (refl, lookup_agent-known alive now peer_ip rec (record m { ams = a }) h (known rec m) live)
    where
      register_new :
          (r : AgentRecord) (m : Master)
          → contains r.name m.ams.registry ≡ false
          → AmsPart.register_agent r m.ams
            ≡ (true, record { registry = insert r.name r m.ams.registry })
      register_new r m e = unfold AmsPart.register_agent in rw e refl

      known :
          (r : AgentRecord) (m : Master)
          → find_agent r.name (record { registry = insert r.name r m.ams.registry }) ≡ some r
      known r m = unfold find_agent in lookup-insert_self r.name r m.ams.registry
