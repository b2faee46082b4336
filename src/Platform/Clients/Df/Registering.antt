-- ===== src/Platform/Clients/Df/Registering.antt =====
-- A service that src/platform/DFClient.cpp registers and then searches, over connections to
-- platform/df/DF.cpp.
use g_agent.Base.{
  suc, String, List, [], ◌∷◌, ◌++◌, Bool, true, false, not, ◌==◌, string_key, keep, keep-append,
  map, length, length-append, leb, ==_refl, ◌≡◌, refl, sym, ap, ◌∙◌, subst, Bool-cases, inl, inr,
  arith, ℤ,
}
use g_agent.Platform.Input.Numbers.{is_int}
use g_agent.Platform.Df as DfPart
use g_agent.Platform.Df.{Service, Df, purge_dead, is_dead}
use g_agent.Platform.Config.{Config}
use g_agent.Platform.Clients.{returns}
use g_agent.Platform.Clients.Ams.Session.{is_slave}
use g_agent.Platform.Clients.Df.{ServiceInfo, register_service, search}
use g_agent.Platform.Clients.Df.Session.{serve, Sendable, given_service, register_service-remote}
use g_agent.Platform.Clients.Df.Searching.{info_of, Listable, AllListable, of_type, search-remote}

of_type-register_service :
    (alive : ℤ → Bool) (g : Service) (d : Df)
    → is_dead alive g ≡ false
    → of_type g.type (purge_dead alive (DfPart.register_service g d))
      ≡ of_type g.type (purge_dead alive d) ++ g ∷ []
unfolding purge_dead DfPart.register_service DfPart.search
of_type-register_service alive g d h =
    let live : keep (λ s. not (is_dead alive s)) (g ∷ []) ≡ g ∷ [] = rw h refl in
    let kept =
      keep-append (λ s. not (is_dead alive s)) d.services (g ∷ [])
      ∙ ap (λ l. keep (λ s. not (is_dead alive s)) d.services ++ l) live in
    elim (Bool-cases (g.type == "*")) [
      | inl e ↦ rw e kept
      | inr e ↦ rw e (
          ap (keep (λ s. s.type == g.type)) kept
          ∙ keep-append (λ s. s.type == g.type) (keep (λ s. not (is_dead alive s)) d.services)
              (g ∷ [])
          ∙ ap
              (λ l.
                keep (λ s. s.type == g.type) (keep (λ s. not (is_dead alive s)) d.services) ++ l)
              (rw (==_refl g.type) refl))
    ]

AllListable-append :
    (l : List Service) (g : Service) → AllListable l → Listable g → AllListable (l ++ g ∷ [])
AllListable-append [] g h k = (k, tt)
AllListable-append (s ∷ l) g (h, hs) k = (h, AllListable-append l g hs k)

map-append :
    (l : List Service) (g : Service) → map info_of (l ++ g ∷ []) ≡ map info_of l ++ info_of g ∷ []
map-append [] g = refl
map-append (s ∷ l) g = ap (λ r. info_of s ∷ r) (map-append l g)

-- A service that is registered over a connection is found over one, behind the live services of its
-- type that were there: the search for its type, or for `*` if that is its type, returns them and then
-- the new one, a missing text as the dash that stands for it. The service is local and its process
-- lives, or it is a slave's; the arguments are words, of which the ontology, the protocol and the
-- ownership may be missing; no text that is listed is more than a word or a dash; the pid has 32
-- bits, the slave is none or a word other than `-`, and the count is below 2^31.
pub search-register_service :
    (alive : ℤ → Bool) (peer_ip : String) (cfg : Config) (pid : ℤ) (s : ServiceInfo) (d : Df)
    → Sendable s
    → is_int pid ≡ true
    → is_slave cfg.slave_ip ≡ true
    → Listable (given_service cfg pid s)
    → is_dead alive (given_service cfg pid s) ≡ false
    → AllListable (of_type s.type (purge_dead alive d))
    → leb (suc (length (of_type s.type (purge_dead alive d)))) 2147483647 ≡ true
    → let (ok, after) = register_service (serve alive peer_ip) cfg pid s d in
      (ok ≡ true)
      × ((search (serve alive peer_ip) s.type after).0
          ≡ returns (
              map info_of (of_type s.type (purge_dead alive d))
              ++ info_of (given_service cfg pid s) ∷ []))
search-register_service alive peer_ip cfg pid s d h p k l live a c =
    let g = given_service cfg pid s in
    let old = of_type s.type (purge_dead alive d) in
    let after = DfPart.register_service g d in
    let appended = of_type-register_service alive g d live in
    rw (register_service-remote alive peer_ip cfg pid s d h p k) (
      refl,
      ap (λ q. q.0)
            (search-remote alive peer_ip s.type after h.type_ok
              (subst AllListable (sym appended) (AllListable-append old g a l))
              (ap (λ n. leb n 2147483647)
                  (ap length appended ∙ length-append old (g ∷ []) ∙ omega arith)
                ∙ c))
          ∙ ap (λ l. returns (map info_of l)) appended
          ∙ ap (λ l. returns l) (map-append old g),
    )
