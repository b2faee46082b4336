-- ===== src/Platform/Df/Directory.antt =====
-- What the directory of DF.cpp answers after its changes.
use mathlib.Core.Path.{fun_ext}
use g_agent.Base.{
  true, pos, int_ltb, ap, ◌∙◌, String, List, [], ◌∷◌, ◌++◌, Bool, false, ◌&&◌, not, if◌then◌else◌,
  ◌==◌, string_key, keep, keep-append, keep-keep, ◌≡◌, refl, sym, arith, ℤ, Bool-cases, inl, inr,
}
use g_agent.Platform.Input.{Input, input, read_word}
use g_agent.Platform.Df.{
  Service, Df, register_service, deregister_agent, deregister_slave, search, search_ontology,
  is_dead, purge_dead, find_services, answer_found, serve_search, handle_client,
}

keep_comm : {A : Type 0} (p q : A → Bool) (xs : List A) → keep p (keep q xs) ≡ keep q (keep p xs)
keep_comm p q [] = refl
keep_comm p q (x ∷ xs) = ground (arith, keep_comm p q xs)

-- A search by type finds a new service last, where it has the type; it finds what it found before
-- less the services of an agent that was removed, or of a slave that was removed, in the same order.
pub search-changes :
    (t : String) (d : Df)
    → ((s : Service)
        → search t (register_service s d) ≡ search t d ++ (if s.type == t then s ∷ [] else []))
      × ((n : String)
          → search t (deregister_agent n d) ≡ keep (λ s. not (s.agent_name == n)) (search t d))
      × ((ip : String)
          → search t (deregister_slave ip d) ≡ keep (λ s. not (s.slave_ip == ip)) (search t d))
unfolding search register_service deregister_agent deregister_slave
search-changes t d = (
  λ s. keep-append (λ s. s.type == t) d.services (s ∷ []),
  λ n. keep_comm (λ s. s.type == t) (λ s. not (s.agent_name == n)) d.services,
  λ ip. keep_comm (λ s. s.type == t) (λ s. not (s.slave_ip == ip)) d.services,
)

-- The search by ontology is the search by type, less the services of other ontologies.
pub search_ontology-search :
    (t o : String) (d : Df) → search_ontology t o d ≡ keep (λ s. s.ontology == o) (search t d)
unfolding search search_ontology
search_ontology-search t o d = sym (keep-keep (λ s. s.ontology == o) (λ s. s.type == t) d.services)

-- A local service with a process id stays while its process is there; any other stays.
abbrev pub is_kept : (ℤ → Bool) → Service → Bool
is_kept alive s =
    if s.slave_ip == "" then (if int_ltb (pos 0) s.pid then alive s.pid else true) else true

-- The name of the command.
abbrev pub search_command : Bool → String
search_command true = "SEARCH_ONT"
search_command false = "SEARCH"

-- A service fits what is asked for: its type and, if that is asked for, its ontology. Without an
-- ontology the empty text and `*` are any type.
abbrev pub fits : Bool → String → String → Service → Bool
fits true type ontology s = s.type == type && s.ontology == ontology
fits false type ontology s =
    if type == "" then true else (if type == "*" then true else s.type == type)

not-is_dead : (alive : ℤ → Bool) (s : Service) → not (is_dead alive s) ≡ is_kept alive s
unfolding is_dead
not-is_dead alive s = elim (Bool-cases (s.slave_ip == "")) [
  | inr e ↦ rw e refl
  | inl e ↦ elim (Bool-cases (int_ltb (pos 0) s.pid)) [
    | inr k ↦ rw (e, k) refl
    | inl k ↦ elim (Bool-cases (alive s.pid)) [
      | inl h ↦ rw (e, k, h) refl
      | inr h ↦ rw (e, k, h) refl
    ]
  ]
]

keep-all : {A : Type 0} (p : A → Bool) (xs : List A) → ((x : A) → p x ≡ true) → xs ≡ keep p xs
keep-all p [] h = refl
keep-all p (x ∷ xs) h = rw (h x) (ap (λ l. x ∷ l) (keep-all p xs h))

find_services-fits :
    (alive : ℤ → Bool) (with_ontology : Bool) (i : Input) (d : Df)
    → let (type, rest) = read_word i "" in
      find_services alive with_ontology i d
      ≡ keep (fits with_ontology type (read_word rest "").0) d.services
unfolding find_services search search_ontology
find_services-fits alive true i d = refl
find_services-fits alive false i d =
    let (type, rest) = read_word i "" in
    let p = fits false type (read_word rest "").0 in
    elim (Bool-cases (type == "")) [
      | inl e ↦ rw e (keep-all p d.services (λ s. rw e refl))
      | inr e ↦ elim (Bool-cases (type == "*")) [
        | inl k ↦ rw (e, k) (keep-all p d.services (λ s. rw (e, k) refl))
        | inr k ↦ rw (e, k) (ap (λ f. keep f d.services) (fun_ext λ s. rw (e, k) refl))
      ]
    ]

purge_dead-is_kept :
    (alive : ℤ → Bool) (d : Df)
    → purge_dead alive d ≡ record { services = keep (is_kept alive) d.services }
unfolding purge_dead
purge_dead-is_kept alive d =
    ap (λ f. record { services = keep f d.services }) (fun_ext (not-is_dead alive))

serves_search :
    (alive : ℤ → Bool) (peer_ip line : String) (with_ontology : Bool) (d : Df)
    → (read_word (input line) "").0 ≡ search_command with_ontology
    → handle_client alive peer_ip line d
      ≡ serve_search alive with_ontology (read_word (input line) "").1 d
unfolding handle_client
serves_search alive peer_ip line true d h = rw h refl
serves_search alive peer_ip line false d h = rw h refl

-- What the DF does with a line whose command is SEARCH or SEARCH_ONT, whatever its arguments: the
-- services that are local and have a process id whose process is gone leave the directory, and no other;
-- the answer lists those that stay and fit, in their order.
pub handle_client-fits :
    (alive : ℤ → Bool) (peer_ip line : String) (with_ontology : Bool) (d : Df)
    → (read_word (input line) "").0 ≡ search_command with_ontology
    → let (type, rest) = read_word (read_word (input line) "").1 "" in
      let live = keep (is_kept alive) d.services in
      handle_client alive peer_ip line d ≡ (
        answer_found (keep (fits with_ontology type (read_word rest "").0) live),
        record { services = live },
      )
unfolding serve_search
handle_client-fits alive peer_ip line with_ontology d h =
    let i = (read_word (input line) "").1 in
    serves_search alive peer_ip line with_ontology d h
    ∙ ap (λ l. (answer_found l, purge_dead alive d))
        (find_services-fits alive with_ontology i (purge_dead alive d))
    ∙ ap
        (λ q. (
          answer_found (
              keep (fits with_ontology (read_word i "").0 (read_word (read_word i "").1 "").0)
                q.services),
          q,
        ))
        (purge_dead-is_kept alive d)
