-- ===== src/Platform/Ams/WellFormed.antt =====
-- The invariant of the registry of AMS.cpp, and what the server's commands do to it.
use g_agent.Base.{
  ℕ, String, [], ◌∷◌, Bool, true, false, some, ◌==◌, string_key, ◌≡◌, refl, arith, eq_iff,
  Option-cases, Bool-cases, inl, inr, lookup, contains, Map, insert, erase, erase_if, assign, place,
  IsDistinct, IsDistinct-insert, IsDistinct-erase, IsDistinct-erase_if, All, ℤ,
}
use g_agent.Platform.Input.{Input, input, read_word}
use g_agent.Platform.Ams.{
  AgentRecord, Ams, register_agent, register_endpoint, deregister_agent, deregister_slave,
  find_agent, set_state,
}
use g_agent.Platform.Ams.Server.{
  Master, reply_if, Command, register, deregister, lookup_agent, set_agent_state, list_agents,
  endpoint, slave_in, beat, slave_out, list_of_slaves, unknown_command, command_of, read_record,
  is_dead, purge_dead, serve_lookup, serve_list, serve_register_slave, serve_deregister_slave,
  serve_command, handle_client,
}

-- The record of an entry carries the entry's own name.
abbrev Named : String × AgentRecord → Type 0
Named (n, r) = r.name ≡ n

-- Every name has one entry, under its own name.
abbrev pub IsWellFormed : Ams → Type 0
IsWellFormed a = IsDistinct a.registry × All Named a.registry

All-assign :
    (n : String) (r : AgentRecord) (m : Map String AgentRecord)
    → r.name ≡ n
    → All Named m
    → All Named (assign n r m)
unfolding assign
All-assign n r [] e h = tt
All-assign n r ((k, s) ∷ m) e h = ground (arith, All-assign n r m)

All-place :
    (n : String) (r : AgentRecord) (m : Map String AgentRecord)
    → r.name ≡ n
    → All Named m
    → All Named (place n r m)
unfolding place
All-place n r [] e h = (e, tt)
All-place n r ((k, s) ∷ m) e h = ground (arith, All-place n r m)

insert-IsWellFormed :
    (r : AgentRecord) (n : String) (a : Ams)
    → r.name ≡ n
    → IsWellFormed a
    → IsWellFormed (record { registry = insert n r a.registry })
unfolding insert
insert-IsWellFormed r n a e h = (
  IsDistinct-insert n r a.registry h.0,
  ground (arith, All-assign n r a.registry, All-place n r a.registry),
)

All-erase : (n : String) (m : Map String AgentRecord) → All Named m → All Named (erase n m)
unfolding erase
All-erase n [] h = tt
All-erase n ((k, s) ∷ m) h = ground (arith, All-erase n m)

All-erase_if :
    (p : AgentRecord → Bool) (m : Map String AgentRecord) → All Named m → All Named (erase_if p m)
unfolding erase_if
All-erase_if p [] h = tt
All-erase_if p ((k, s) ∷ m) h = ground (arith, All-erase_if p m)

erase_if-IsWellFormed :
    (p : AgentRecord → Bool) (a : Ams)
    → IsWellFormed a
    → IsWellFormed (record { registry = erase_if p a.registry })
erase_if-IsWellFormed p a h = (IsDistinct-erase_if p a.registry h.0, All-erase_if p a.registry h.1)

lookup-Named :
    (n : String) (m : Map String AgentRecord) (r : AgentRecord)
    → All Named m
    → lookup n m ≡ some r
    → r.name ≡ n
unfolding lookup
lookup-Named n [] r h e = cc
lookup-Named n ((k, s) ∷ m) r h e = ground (arith, eq_iff k n, lookup-Named n m r)

register_agent-IsWellFormed :
    (r : AgentRecord) (a : Ams) → IsWellFormed a → IsWellFormed (register_agent r a).1
unfolding register_agent
register_agent-IsWellFormed r a h = elim (Bool-cases (contains r.name a.registry)) [
  | inl e ↦ rw e h
  | inr e ↦ rw e (insert-IsWellFormed r r.name a refl h)
]

deregister_agent-IsWellFormed :
    (n : String) (a : Ams) → IsWellFormed a → IsWellFormed (deregister_agent n a).1
unfolding deregister_agent
deregister_agent-IsWellFormed n a h = elim (Bool-cases (contains n a.registry)) [
  | inl e ↦ rw e (IsDistinct-erase n a.registry h.0, All-erase n a.registry h.1)
  | inr e ↦ rw e h
]

set_state-IsWellFormed :
    (n state : String) (a : Ams) → IsWellFormed a → IsWellFormed (set_state n state a).1
unfolding set_state
set_state-IsWellFormed n state a h = elim (Option-cases (lookup n a.registry)) [
  | inl e ↦ rw e h
  | inr (r, e) ↦
      rw e
        (insert-IsWellFormed (record r { state = state }) n a (lookup-Named n a.registry r h.1 e) h)
]

module _ (alive : ℤ → Bool) where
  found-IsWellFormed :
      (n : String) (m : Master) → IsWellFormed m.ams → IsWellFormed (serve_lookup alive n m).1.ams
  unfolding serve_lookup
  found-IsWellFormed n m h = elim (Option-cases (find_agent n m.ams)) [
    | inl e ↦ rw e h
    | inr (r, e) ↦ elim (Bool-cases (is_dead alive r)) [
      | inl dead ↦ rw e (rw dead (deregister_agent-IsWellFormed n m.ams h))
      | inr lives ↦ rw e (rw lives h)
    ]
  ]

reply_if-IsWellFormed :
    (error : String) (x : Bool × Ams) (m : Master)
    → IsWellFormed x.1
    → IsWellFormed (reply_if error x m).1.ams
reply_if-IsWellFormed error (true, a) m h = h
reply_if-IsWellFormed error (false, a) m h = h

serve_register_slave-IsWellFormed :
    (now : ℕ) (ip : String) (i : Input) (m : Master)
    → IsWellFormed m.ams
    → IsWellFormed (serve_register_slave now ip i m).1.ams
unfolding serve_register_slave deregister_slave
serve_register_slave-IsWellFormed now ip i m h = elim (Bool-cases (ip == "")) [
  | inl e ↦ rw e h
  | inr e ↦ rw e (erase_if-IsWellFormed (λ r. r.slave_ip == ip) m.ams h)
]

module _ (alive : ℤ → Bool) where
  serve_command-IsWellFormed :
      (c : Command) (now : ℕ) (peer_ip : String) (i : Input) (m : Master)
      → IsWellFormed m.ams
      → IsWellFormed (serve_command alive c now peer_ip i m).1.ams
  unfolding serve_command register_endpoint serve_list purge_dead serve_deregister_slave
      deregister_slave
  serve_command-IsWellFormed register now peer_ip i m h =
      reply_if-IsWellFormed _ _ m (register_agent-IsWellFormed (read_record peer_ip i) m.ams h)
  serve_command-IsWellFormed deregister now peer_ip i m h =
      reply_if-IsWellFormed _ _ m (deregister_agent-IsWellFormed (read_word i "").0 m.ams h)
  serve_command-IsWellFormed lookup_agent now peer_ip i m h =
      found-IsWellFormed alive (read_word i "").0 m h
  serve_command-IsWellFormed set_agent_state now peer_ip i m h =
      let (name, i1) = read_word i "" in
      let (state, i2) = read_word i1 "" in
      reply_if-IsWellFormed _ _ m (set_state-IsWellFormed name state m.ams h)
  serve_command-IsWellFormed list_agents now peer_ip i m h =
      erase_if-IsWellFormed (is_dead alive) m.ams h
  serve_command-IsWellFormed endpoint now peer_ip i m h =
      insert-IsWellFormed (read_record peer_ip i) (read_record peer_ip i).name m.ams refl h
  serve_command-IsWellFormed slave_in now peer_ip i m h =
      serve_register_slave-IsWellFormed now peer_ip i m h
  serve_command-IsWellFormed beat now peer_ip i m h = h
  serve_command-IsWellFormed slave_out now peer_ip i m h =
      erase_if-IsWellFormed (λ r. r.slave_ip == (read_word i "").0) m.ams h
  serve_command-IsWellFormed list_of_slaves now peer_ip i m h = h
  serve_command-IsWellFormed unknown_command now peer_ip i m h = h

  -- Whatever line a client sends, and from whatever address, the registry keeps one entry for each
  -- name, with the record of that name.
  pub handle_client-IsWellFormed :
      (now : ℕ) (peer_ip line : String) (m : Master)
      → IsWellFormed m.ams
      → IsWellFormed (handle_client alive now peer_ip line m).1.ams
  unfolding handle_client
  handle_client-IsWellFormed now peer_ip line m h =
      let (cmd, i) = read_word (input line) "" in
      serve_command-IsWellFormed (command_of cmd) now peer_ip i m h
