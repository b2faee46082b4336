-- ===== src/Platform/Startup/Session.antt =====
-- A slave of platform/main.cpp on connections to its master, platform/ams/AMS.cpp.
use Prim.Native.Char.{code}
use Prim.Native.String.{◌++◌}
use text.Mathlib.TextLemmas.{append_assoc}
use g_agent.Base.{
  to_u16, ℕ, String, Bool, true, false, ◌&&◌, ◌||◌, not, none, some, if◌then◌else◌, ◌==◌, nat_key,
  string_key, leb, arith, eq_iff, both_true, ◌≡◌, refl, sym, ap, ◌∙◌, Bool-cases, inl, inr, ℤ, pos,
}
use g_agent.Platform.Input.{input, is_space, to_string}
use g_agent.Platform.Input.Words.{spaceless, is_one_word, read_word-last}
use g_agent.Platform.Input.Numbers.{is_int, read_int-last}
use g_agent.Platform.Slaves.{register_slave, heartbeat, drop_slave}
use g_agent.Platform.Ams.{deregister_slave}
use g_agent.Platform.Ams.Server.{
  Master, on_slaves, serve_register_slave, serve_deregister_slave, command_of, serve_command,
}
use g_agent.Platform.Config.{Config, default_config, stoi, load, write_config}
use g_agent.Platform.Config.RoundTrip.{load-write_config}
use g_agent.Platform.Clients.{Server, is_ok, request}
use g_agent.Platform.Clients.Lines.{
  OneLine, OneLine-append, word-OneLine, to_string-OneLine, request-line, is_ok-append,
  behind_ok-append,
}
use g_agent.Platform.Clients.Ams.Session.{serve, is_slave, handle_client-command, serve-line}
use g_agent.Platform.Clients.Df.Session.{word-full}
use g_agent.Platform.Startup.{
  Args, on_slave, split_last, trim_end, slave_address, platform_config, tcp_request, joined, join,
  join_at, start_slave, beat, stop_slave,
}

no_trim :
    (n : ℕ)
    → not (n == 32 || (leb 9 n && leb n 13)) ≡ true
    → (n == 10 || (n == 13 || n == 32)) ≡ false
no_trim n h = ground arith

word-spaceless : (w : String) → is_one_word w ≡ true → spaceless w ≡ true
word-spaceless String.[] h = refl
word-spaceless (String.◌∷◌ c s) h = h

trim_end-word : (s : String) → spaceless s ≡ true → trim_end s ≡ s
unfolding trim_end
trim_end-word String.[] h = refl
trim_end-word (String.◌∷◌ c s) h =
    let (first, rest) = both_true (not (is_space c)) (spaceless s) h in
    rw (trim_end-word s rest) (elim (Bool-cases (s == "")) [
      | inl e ↦ rw (e, no_trim (code c) first) refl
      | inr e ↦ rw e refl
    ])

answered-ok :
    (detected given peer_ip : String)
    → is_one_word peer_ip ≡ true
    → slave_address detected given ("OK " ++ peer_ip) ≡ (if given == "" then peer_ip else given)
unfolding slave_address
answered-ok detected given peer_ip w =
    rw (behind_ok-append peer_ip)
      (rw (trim_end-word peer_ip (word-spaceless peer_ip w)) (rw (word-full peer_ip w) refl))

no_answer : is_ok "" ≡ false
unfolding is_ok
no_answer = refl

not_empty : (s : String) → is_ok s ≡ true → (s == "") ≡ false
not_empty s h = elim (Bool-cases (s == "")) [
  | inr e ↦ e
  | inl e ↦ absurd (true-false (sym h ∙ ap is_ok ((eq_iff s "").0 e) ∙ no_answer))
]
  where
    true-false : true ≡ false → ⊥
    true-false h = cc

module _ (alive : ℤ → Bool) (now : ℕ) (peer_ip : String) (reaches : String → ℕ → Bool) where
  -- The master's server, for who reaches it.
  unfoldable pub master_at : String → ℕ → Server Master
  master_at ip port text m = if reaches ip port then serve alive now peer_ip text m else none

  request-reached :
      (ip cmd : String) (port : ℕ) (m : Master)
      → reaches ip port ≡ true
      → request (master_at ip port) cmd m ≡ request (serve alive now peer_ip) cmd m
  unfolding request master_at
  request-reached ip cmd port m h = rw h refl

  register_slave-remote :
      (port : ℤ) (m : Master)
      → is_int port ≡ true
      → is_one_word peer_ip ≡ true
      → request (serve alive now peer_ip) ("REGISTER_SLAVE " ++ to_string port) m ≡ (
        "OK " ++ peer_ip,
        (on_slaves
            (register_slave now peer_ip port)
            (record m { ams = deregister_slave peer_ip m.ams })),
      )
  register_slave-remote port m p w =
      let line = "REGISTER_SLAVE " ++ to_string port in
      let ok : OneLine ("OK " ++ peer_ip) =
        OneLine-append (record { no_break = refl }) (word-OneLine peer_ip w) in
      request-line (serve alive now peer_ip) line ("OK " ++ peer_ip) "" m after
        (serve-line alive now peer_ip line (("OK " ++ peer_ip) ++ "\n") m after
          (OneLine-append (record { no_break = refl }) (to_string-OneLine port))
          (handle_client-command alive now peer_ip "REGISTER_SLAVE" (to_string port) m refl
            ∙ answer))
        ok
    where
      after : Master
      after =
          on_slaves (register_slave now peer_ip port)
            (record m { ams = deregister_slave peer_ip m.ams })

      answer :
          serve_command alive
            (command_of "REGISTER_SLAVE")
            now
            peer_ip
            (input (" " ++ to_string port))
            m
          ≡ (("OK " ++ peer_ip) ++ "\n", after)
      answer =
          unfold command_of serve_command serve_register_slave in
          rw (word-full peer_ip w) (
            ap
              (λ q. (
                "OK " ++ (peer_ip ++ "\n"),
                on_slaves (register_slave now peer_ip q.0)
                    (record m { ams = deregister_slave peer_ip m.ams }),
              ))
              (read_int-last port (pos 40015) p)
            ∙ ap (λ t. (t, after)) (sym (append_assoc "OK " peer_ip "\n")))

  -- The two commands that a slave sends with its address.
  told :
      (cmd ip : String) (m after : Master)
      → is_one_word cmd ≡ true
      → OneLine cmd
      → is_one_word ip ≡ true
      → serve_command alive (command_of cmd) now peer_ip (input (" " ++ ip)) m ≡ ("OK\n", after)
      → (request (serve alive now peer_ip) ((cmd ++ " ") ++ ip) m).1 ≡ after
  told cmd ip m after c l w e =
      let line : OneLine ((cmd ++ " ") ++ ip) =
        OneLine-append (OneLine-append l (record { no_break = refl })) (word-OneLine ip w) in
      ap (λ q. q.1)
        (request-line (serve alive now peer_ip) ((cmd ++ " ") ++ ip) "OK" "" m after
          (serve-line alive now peer_ip ((cmd ++ " ") ++ ip) "OK\n" m after line
            (handle_client-command alive now peer_ip cmd ip m c ∙ e))
          (record { no_break = refl }))

  -- A beat of a slave that reaches its master is the heartbeat of its own address.
  pub beat-heartbeat :
      (cfg : Config) (m : Master)
      → is_one_word cfg.slave_ip ≡ true
      → reaches cfg.master_ip (to_u16 cfg.master_port) ≡ true
      → beat master_at cfg m ≡ on_slaves (heartbeat now cfg.slave_ip) m
  unfolding beat
  beat-heartbeat cfg m w h =
      ap (λ q. q.1)
        (request-reached cfg.master_ip ("HEARTBEAT " ++ cfg.slave_ip) (to_u16 cfg.master_port) m h)
      ∙ told "HEARTBEAT" cfg.slave_ip m (on_slaves (heartbeat now cfg.slave_ip) m) refl
          (record { no_break = refl }) w
          (unfold command_of serve_command in
            ap (λ q. ("OK\n", on_slaves (heartbeat now q.0) m)) (read_word-last cfg.slave_ip "" w))

  -- A slave that stops and reaches its master leaves the registry of slaves, with its agents.
  pub stop_slave-drop_slave :
      (cfg : Config) (m : Master)
      → is_one_word cfg.slave_ip ≡ true
      → reaches cfg.master_ip (to_u16 cfg.master_port) ≡ true
      → stop_slave master_at cfg m
        ≡ on_slaves
            (drop_slave cfg.slave_ip)
            (record m { ams = deregister_slave cfg.slave_ip m.ams })
  unfolding stop_slave
  stop_slave-drop_slave cfg m w h = rw (word-full cfg.slave_ip w) (
      ap (λ q. q.1)
        (request-reached cfg.master_ip ("DEREGISTER_SLAVE " ++ cfg.slave_ip)
          (to_u16 cfg.master_port) m h)
      ∙ told "DEREGISTER_SLAVE" cfg.slave_ip m
          (on_slaves (drop_slave cfg.slave_ip)
            (record m { ams = deregister_slave cfg.slave_ip m.ams }))
          refl (record { no_break = refl }) w
          (unfold command_of serve_command serve_deregister_slave in
            ap
              (λ q. (
                "OK\n",
                on_slaves (drop_slave q.0) (record m { ams = deregister_slave q.0 m.ams }),
              ))
              (read_word-last cfg.slave_ip "" w)))

  -- A slave starts on a master that it reaches, at the address and the port in its option: its
  -- configuration names them, its own ports, and as its address the one of `--ip` or else the one that
  -- the master sees, whatever address was detected; the programs of its machine load this
  -- configuration from the file. The master has dropped the agents that it had under the address that
  -- it sees, and has registered that address now, with the control port. The addresses are words, and
  -- the ports 32-bit numbers.
  pub start_slave-register_slave :
      (detected : String) (args : Args) (ip text : String) (port : ℤ) (m : Master)
      → split_last args.slave_addr ≡ some (ip, text)
      → stoi text ≡ some port
      → reaches ip (to_u16 port) ≡ true
      → is_one_word ip ≡ true
      → is_one_word peer_ip ≡ true
      → is_slave args.local_ip ≡ true
      → is_int port ≡ true
      → is_int args.control_port ≡ true
      → is_int args.base_port ≡ true
      → let cfg =
          platform_config args ip port (if args.local_ip == "" then peer_ip else args.local_ip) in
        (start_slave master_at detected args m ≡ (
          on_slave cfg,
          on_slaves
              (register_slave now peer_ip args.control_port)
              (record m { ams = deregister_slave peer_ip m.ams }),
        ))
        × (load (write_config cfg) default_config ≡ some cfg)
  unfolding start_slave tcp_request
  start_slave-register_slave detected args ip text port m e n h i w l p c b = (
    ap (λ o. join_at master_at detected args o m) e
        ∙ ap (λ o. join master_at detected args ip o m) n
        ∙ ap (joined master_at detected args ip port) (
            request-reached ip ("REGISTER_SLAVE " ++ to_string args.control_port) (to_u16 port) m h
            ∙ register_slave-remote args.control_port m c w)
        ∙ rw (not_empty ("OK " ++ peer_ip) (is_ok-append peer_ip)) (
            rw (is_ok-append peer_ip) (
              ap
                (λ slave_ip. (
                  on_slave (platform_config args ip port slave_ip),
                  on_slaves (register_slave now peer_ip args.control_port)
                      (record m { ams = deregister_slave peer_ip m.ams }),
                ))
                (answered-ok detected args.local_ip peer_ip w))),
    load-write_config
        (platform_config args ip port (if args.local_ip == "" then peer_ip else args.local_ip))
        (word-OneLine ip i) (chosen args.local_ip l) p c b refl,
  )
    where
      chosen :
          (given : String)
          → is_slave given ≡ true
          → OneLine (if given == "" then peer_ip else given)
      chosen given l = elim (Bool-cases (given == "")) [
        | inl e ↦ rw e (word-OneLine peer_ip w)
        | inr e ↦
            rw e (
              word-OneLine given (both_true (is_one_word given) (not (given == "-")) (rw e at l)).0)
      ]
