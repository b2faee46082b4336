-- ===== src/Platform/Ams/Liveness.antt =====
-- LOOKUP and LIST of `AMS::handle_client` against each other.
use Prim.Native.String.{◌++◌}
use g_agent.Base.{
  String, Bool, Option, none, some, unless, string_key, ==_refl, ◌≡◌, ◌∙◌, Option-cases, Bool-cases,
  inl, inr, lookup, lookup-erase, lookup-erase_if, IsDistinct, ℤ,
}
use g_agent.Platform.Ams.{AgentRecord, Ams, deregister_agent, find_agent}
use g_agent.Platform.Ams.Server.{Master, is_dead, purge_dead, serve_lookup, agent_line}

abbrev pub lookup_answer : Option AgentRecord → String
lookup_answer none = "ERROR not_found\n"
lookup_answer (some r) = "OK " ++ agent_line r

find_agent-deregister_agent : (n : String) (a : Ams) → find_agent n (deregister_agent n a).1 ≡ none
unfolding deregister_agent find_agent
find_agent-deregister_agent n a = elim (Option-cases (lookup n a.registry)) [
  | inl e ↦ rw e e
  | inr (r, e) ↦ rw e (lookup-erase n n a.registry ∙ rw (==_refl n))
]

module _ (alive : ℤ → Bool) where
  purged :
      (n : String) (m : Master)
      → IsDistinct m.ams.registry
      → find_agent n (purge_dead alive m.ams) ≡ unless (is_dead alive) (find_agent n m.ams)
  unfolding purge_dead find_agent
  purged n m h = lookup-erase_if (is_dead alive) n m.ams.registry h

  -- In a registry whose names are distinct, the purge of LIST finds what was found before, but no
  -- local agent whose process is gone; LOOKUP answers with what that purge leaves under the name, and
  -- after it the registry has under the name what the purge leaves.
  pub serve_lookup-purge_dead :
      (n : String) (m : Master)
      → IsDistinct m.ams.registry
      → (find_agent n (purge_dead alive m.ams) ≡ unless (is_dead alive) (find_agent n m.ams))
        × ((serve_lookup alive n m).0 ≡ lookup_answer (find_agent n (purge_dead alive m.ams)))
        × (find_agent n (serve_lookup alive n m).1.ams ≡ find_agent n (purge_dead alive m.ams))
  unfolding serve_lookup
  serve_lookup-purge_dead n m h =
      let left : find_agent n (purge_dead alive m.ams)
          ≡ unless (is_dead alive) (find_agent n m.ams) =
        purged n m h in
      elim (Option-cases (find_agent n m.ams)) [
        | inl e ↦ (left, rw (left, e), rw (left, e) e)
        | inr (r, e) ↦ elim (Bool-cases (is_dead alive r)) [
          | inl d ↦ (left, rw (left, e, d), rw (left, e, d) (find_agent-deregister_agent n m.ams))
          | inr d ↦ (left, rw (left, e, d), rw (left, e, d) e)
        ]
      ]
