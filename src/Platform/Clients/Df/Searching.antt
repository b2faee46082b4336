-- ===== src/Platform/Clients/Df/Searching.antt =====
-- SEARCH by the client of src/platform/DFClient.cpp on a connection to the server of platform/df/DF.cpp.
use Prim.Native.String.{◌++◌}
use text.Mathlib.TextLemmas.{append_assoc}
use g_agent.Base.{
  String, List, [], ◌∷◌, Bool, true, some, if◌then◌else◌, ◌==◌, string_key, map, length, leb, ◌≡◌,
  refl, ap, ◌∙◌, ℤ,
}
use g_agent.Platform.Input.Words.{
  is_one_word, read_word-append, read_word-next, read_word-last, read_word-command, ends_word-blank,
}
use g_agent.Platform.Df as DfPart
use g_agent.Platform.Df.{
  Service, Df, tok, undash, svc_to_line, service_lines, read_service, answer_found, purge_dead,
  find_services, serve_search, handle_client,
}
use g_agent.Platform.Clients.{returns, read_counted, connected}
use g_agent.Platform.Clients.Lines.{OneLine, OneLine-append, word-OneLine, read_line-append}
use g_agent.Platform.Clients.Ams.Session.{is_slave, dash-word}
use g_agent.Platform.Clients.Ams.Listing.{read_counted-answer}
use g_agent.Platform.Clients.Df.{
  ServiceInfo, read_service_info, read_service_infos, search_impl, search,
}
use g_agent.Platform.Clients.Df.Session.{serve, word-full}

-- What a client gets of a service: a missing text is the dash that stands for it on the line.
abbrev pub info_of : Service → ServiceInfo
info_of s = record {
  agent_name = tok s.agent_name;
  type = tok s.type;
  service_name = tok s.name;
  language = tok s.language;
  ontology = tok s.ontology;
  interaction_protocol = tok s.interaction_protocol;
  ownership = tok s.ownership;
}

-- The texts are missing or words.
pub record Listable (s : Service) : Type 0 where
  pub agent_name_ok : is_slave s.agent_name ≡ true
  pub type_ok : is_slave s.type ≡ true
  pub name_ok : is_slave s.name ≡ true
  pub language_ok : is_slave s.language ≡ true
  pub ontology_ok : is_slave s.ontology ≡ true
  pub interaction_protocol_ok : is_slave s.interaction_protocol ≡ true
  pub ownership_ok : is_slave s.ownership ≡ true

abbrev pub AllListable : List Service → Type 0
AllListable [] = Unit
AllListable (s ∷ l) = Listable s × AllListable l

service_line_text : Service → String
service_line_text s =
    tok s.agent_name
    ++ " "
    ++ tok s.type
    ++ " "
    ++ tok s.name
    ++ " "
    ++ tok s.language
    ++ " "
    ++ tok s.ontology
    ++ " "
    ++ tok s.interaction_protocol
    ++ " "
    ++ tok s.ownership

svc_to_line-text :
    (s : Service) (x : String) → svc_to_line s ++ x ≡ service_line_text s ++ ("\n" ++ x)
unfolding svc_to_line service_line_text
svc_to_line-text s x = simp append_assoc

service_line_text-OneLine : (s : Service) → Listable s → OneLine (service_line_text s)
unfolding service_line_text
service_line_text-OneLine s h = OneLine-append (field s.agent_name h.agent_name_ok) (
    OneLine-append blank (
      OneLine-append (field s.type h.type_ok) (
        OneLine-append blank (
          OneLine-append (field s.name h.name_ok) (
            OneLine-append blank (
              OneLine-append (field s.language h.language_ok) (
                OneLine-append blank (
                  OneLine-append (field s.ontology h.ontology_ok) (
                    OneLine-append blank (
                      OneLine-append (field s.interaction_protocol h.interaction_protocol_ok)
                        (OneLine-append blank (field s.ownership h.ownership_ok))))))))))))
  where
    blank : OneLine " "
    blank = record { no_break = refl }

    field : (v : String) → is_slave v ≡ true → OneLine (tok v)
    field v e = word-OneLine (tok v) (dash-word v e)

read_service_info-text :
    (s : Service) → Listable s → read_service_info (service_line_text s) ≡ info_of s
unfolding read_service_info service_line_text
read_service_info-text s h =
    let t6 = tok s.interaction_protocol ++ (" " ++ tok s.ownership) in
    let t5 = tok s.ontology ++ (" " ++ t6) in
    let t4 = tok s.language ++ (" " ++ t5) in
    let t3 = tok s.name ++ (" " ++ t4) in
    let t2 = tok s.type ++ (" " ++ t3) in
    rw
      (read_word-append (tok s.agent_name) (" " ++ t2) "" (dash-word s.agent_name h.agent_name_ok)
        (ends_word-blank t2))
      (rw
        (read_word-next (tok s.type) (" " ++ t3) "" (dash-word s.type h.type_ok)
          (ends_word-blank t3))
        (rw
          (read_word-next (tok s.name) (" " ++ t4) "" (dash-word s.name h.name_ok)
            (ends_word-blank t4))
          (rw
            (read_word-next (tok s.language) (" " ++ t5) "" (dash-word s.language h.language_ok)
              (ends_word-blank t5))
            (rw
              (read_word-next (tok s.ontology) (" " ++ t6) "" (dash-word s.ontology h.ontology_ok)
                (ends_word-blank t6))
              (rw
                (read_word-next (tok s.interaction_protocol) (" " ++ tok s.ownership) ""
                  (dash-word s.interaction_protocol h.interaction_protocol_ok)
                  (ends_word-blank (tok s.ownership)))
                (rw (read_word-last (tok s.ownership) "" (dash-word s.ownership h.ownership_ok))
                  refl))))))

read_service_infos-service_lines :
    (l : List Service)
    → AllListable l
    → read_service_infos (length l) (service_lines l) ≡ map info_of l
unfolding read_service_infos service_lines
read_service_infos-service_lines [] h = refl
read_service_infos-service_lines (s ∷ l) (h, k) = rw (svc_to_line-text s (service_lines l)) (
    rw (read_line-append (service_line_text s) (service_lines l) (service_line_text-OneLine s h)) (
      ap (λ i. i ∷ read_service_infos (length l) (service_lines l)) (read_service_info-text s h)
      ∙ ap (λ is. info_of s ∷ is) (read_service_infos-service_lines l k)))

-- The services of a type, where `*` is any type.
abbrev pub of_type : String → Df → List Service
of_type t d = if t == "*" then d.services else DfPart.search t d

-- `search` over the connection returns the services of the type, or all for `*`, once the local ones
-- whose process is gone have left the directory; it makes them leave. A missing text comes back as the
-- dash that stands for it. The type is a word, the services that are found have no text that is more
-- than a word or a dash, and their count is below 2^31.
pub search-remote :
    (alive : ℤ → Bool) (peer_ip t : String) (d : Df)
    → is_one_word t ≡ true
    → AllListable (of_type t (purge_dead alive d))
    → leb (length (of_type t (purge_dead alive d))) 2147483647 ≡ true
    → search (serve alive peer_ip) t d
      ≡ (returns (map info_of (of_type t (purge_dead alive d))), purge_dead alive d)
unfolding search search_impl serve answer_found
search-remote alive peer_ip t d w h k =
    let after = purge_dead alive d in
    let l = of_type t after in
    let line : OneLine ("SEARCH " ++ t) =
      OneLine-append (record { no_break = refl }) (word-OneLine t w) in
    ap
      (λ q.
        connected (read_counted read_service_infos) (some (handle_client alive peer_ip q.0 d)) d)
      (read_line-append ("SEARCH " ++ t) "" line)
    ∙ ap (λ q. connected (read_counted read_service_infos) (some q) d) served
    ∙ ap (λ o. (o, after)) (read_counted-answer read_service_infos (length l) (service_lines l) k)
    ∙ ap (λ is. (returns is, after)) (read_service_infos-service_lines l h)
  where
    served :
        handle_client alive peer_ip ("SEARCH " ++ t) d
        ≡ (answer_found (of_type t (purge_dead alive d)), purge_dead alive d)
    served =
        unfold handle_client serve_search find_services in
        rw (read_word-command "SEARCH" t "" refl)
          (rw (read_word-last t "" w) (rw (word-full t w) refl))
