-- ===== src/Platform/Clients/Ams/Lookup.antt =====
-- Every answer to LOOKUP, over a connection of src/platform/AMSClient.cpp to platform/ams/AMS.cpp.
use Prim.Native.String.{◌++◌}
use g_agent.Base.{
  ℕ, String, Bool, true, Option, none, some, if◌then◌else◌, ◌≡◌, refl, sym, ap, ◌∙◌, Bool-cases,
  inl, inr, ℤ,
}
use g_agent.Platform.Input.Words.{is_one_word, read_word-last}
use g_agent.Platform.Ams.{AgentRecord, deregister_agent, find_agent}
use g_agent.Platform.Ams.Server.{
  Master, is_dead, found, serve_lookup, command_of, serve_command, handle_client,
}
use g_agent.Platform.Clients.{is_ok, behind_ok, Outcome, returns}
use g_agent.Platform.Clients.Lines.{OneLine, OneLine-append, word-OneLine, request-line}
use g_agent.Platform.Clients.Ams.{AgentInfo, looked_up, lookup_agent}
use g_agent.Platform.Clients.Ams.Session.{
  serve, Readable, info_of, handle_client-command, serve-line, lookup_agent-known,
}

-- What is registered under the name is named so, and can be taken apart by a reader.
pub record Findable (name : String) (m : Master) : Type 0 where
  pub named : (r : AgentRecord) → find_agent name m.ams ≡ some r → r.name ≡ name
  pub readable : (r : AgentRecord) → find_agent name m.ams ≡ some r → Readable r

module _ (alive : ℤ → Bool) where
  abbrev pub live_one : String → Option AgentRecord → Master → Option AgentRecord × Master
  live_one name none m = (none, m)
  live_one name (some r) m =
      if is_dead alive r
      then (none, record m { ams = (deregister_agent name m.ams).1 })
      else (some r, m)

  -- The agent of the name, if it is not a local one whose process is gone, and the registry after it.
  abbrev pub find_live : String → Master → Option AgentRecord × Master
  find_live name m = live_one name (find_agent name m.ams) m

abbrev pub infos_found : Option AgentRecord × Master → Outcome (Option AgentInfo) × Master
infos_found (none, m) = (returns none, m)
infos_found (some r, m) = (returns (some (info_of r)), m)

module _ (alive : ℤ → Bool) (now : ℕ) (peer_ip name : String) (m : Master) where
  lookup_agent-missing :
      (after : Master)
      → is_one_word name ≡ true
      → found alive name (find_agent name m.ams) m ≡ ("ERROR not_found\n", after)
      → lookup_agent (serve alive now peer_ip) name m ≡ (returns none, after)
  unfolding lookup_agent
  lookup_agent-missing after w e =
      let line : OneLine ("LOOKUP " ++ name) =
        OneLine-append (record { no_break = refl }) (word-OneLine name w) in
      ap (λ p. (looked_up (is_ok p.0) (behind_ok p.0), p.1))
        (request-line (serve alive now peer_ip) ("LOOKUP " ++ name) "ERROR not_found" "" m after
          (serve-line alive now peer_ip ("LOOKUP " ++ name) "ERROR not_found\n" m after line answer)
          (record { no_break = refl }))
      ∙ unfold is_ok in refl
    where
      answer : handle_client alive now peer_ip ("LOOKUP " ++ name) m ≡ ("ERROR not_found\n", after)
      answer =
          unfold command_of serve_command serve_lookup in
          handle_client-command alive now peer_ip "LOOKUP" name m refl
          ∙ ap (λ p. found alive p.0 (find_agent p.0 m.ams) m) (read_word-last name "" w)
          ∙ e

  lookup_agent-found :
      (o : Option AgentRecord)
      → is_one_word name ≡ true
      → Findable name m
      → find_agent name m.ams ≡ o
      → lookup_agent (serve alive now peer_ip) name m ≡ infos_found (live_one alive name o m)
  lookup_agent-found none w h e = lookup_agent-missing m w (ap (λ o. found alive name o m) e)
  lookup_agent-found (some r) w h e = elim (Bool-cases (is_dead alive r)) [
    | inl dead ↦ rw dead (
        lookup_agent-missing (record m { ams = (deregister_agent name m.ams).1 }) w
          (ap (λ o. found alive name o m) e ∙ rw dead refl))
    | inr live ↦
        let called : find_agent r.name m.ams ≡ some r =
          ap (λ n. find_agent n m.ams) (h.named r e) ∙ e in
        rw live (
          ap (λ n. lookup_agent (serve alive now peer_ip) n m) (sym (h.named r e))
          ∙ lookup_agent-known alive now peer_ip r m (h.readable r e) called live)
  ]

  -- `lookup` over the connection returns what is registered under the name, whatever it is; a local
  -- agent whose process is gone is not returned, and leaves the registry. The name is a word, and what
  -- is registered under it is named so and can be taken apart by a reader.
  pub lookup_agent-find_live :
      is_one_word name ≡ true
      → Findable name m
      → lookup_agent (serve alive now peer_ip) name m ≡ infos_found (find_live alive name m)
  lookup_agent-find_live w h = lookup_agent-found (find_agent name m.ams) w h refl
