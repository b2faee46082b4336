-- ===== src/Platform/Clients/Df/Session.antt =====
-- The client of src/platform/DFClient.cpp on a connection to the server of platform/df/DF.cpp.
use Prim.Native.String.{◌++◌}
use g_agent.Base.{
  String, Bool, true, false, some, ◌==◌, string_key, eq_iff, ◌≡◌, refl, sym, ap, ◌∙◌, Bool-cases,
  inl, inr, ℤ, pos,
}
use g_agent.Platform.Input.{input, to_string}
use g_agent.Platform.Input.Words.{
  is_one_word, read_word-next, read_word-last, read_word-command, ends_word-blank,
}
use g_agent.Platform.Input.Numbers.{is_int, read_int-next}
use g_agent.Platform.Df as DfPart
use g_agent.Platform.Df.{
  Service, Df, tok, undash, svc_to_line, service_lines, read_service, answer_found, purge_dead,
  find_services, serve_search, handle_client,
}
use g_agent.Platform.Config.{Config, is_cluster}
use g_agent.Platform.Clients.{Server, read_line, is_ok, answered}
use g_agent.Platform.Clients.Lines.{
  OneLine, OneLine-append, word-OneLine, to_string-OneLine, read_line-append, request-line,
}
use g_agent.Platform.Clients.Ams.Session.{is_slave, dash-word, undash-dash}
use g_agent.Platform.Clients.Df.{ServiceInfo, slave_text, service_text, register_service}

-- A connection that the server accepts.
unfoldable pub serve : (ℤ → Bool) → String → Server Df
unfolding handle_client
serve alive peer_ip text d = some (handle_client alive peer_ip (read_line text).0 d)

-- The service that the arguments of `registerService` describe.
abbrev pub given_service : Config → ℤ → ServiceInfo → Service
given_service cfg pid s = record {
  agent_name = s.agent_name;
  type = s.type;
  name = s.service_name;
  language = s.language;
  ontology = s.ontology;
  interaction_protocol = s.interaction_protocol;
  ownership = s.ownership;
  pid = pid;
  slave_ip = cfg.slave_ip;
}

-- What `registerService` must be given for the line to be read back: words, of which the last three
-- may be missing. A missing language would move the fields behind it.
pub record Sendable (s : ServiceInfo) : Type 0 where
  pub agent_name_ok : is_one_word s.agent_name ≡ true
  pub type_ok : is_one_word s.type ≡ true
  pub service_name_ok : is_one_word s.service_name ≡ true
  pub language_ok : is_one_word s.language ≡ true
  pub ontology_ok : is_slave s.ontology ≡ true
  pub interaction_protocol_ok : is_slave s.interaction_protocol ≡ true
  pub ownership_ok : is_slave s.ownership ≡ true

slave_text-dash : (cfg : Config) → slave_text cfg ≡ tok cfg.slave_ip
unfolding slave_text is_cluster
slave_text-dash cfg = elim (Bool-cases (cfg.slave_ip == "")) [
  | inl e ↦ rw e refl
  | inr e ↦ rw e refl
]

-- A word is not the empty text.
pub word-full : (w : String) → is_one_word w ≡ true → (w == "") ≡ false
word-full w h = elim (Bool-cases (w == "")) [
  | inr e ↦ e
  | inl e ↦ absurd (false-true (sym (ap is_one_word ((eq_iff w "").0 e)) ∙ h))
]
  where
    false-true : false ≡ true → ⊥
    false-true h = cc

read_service-service_text :
    (peer_ip : String) (cfg : Config) (pid : ℤ) (s : ServiceInfo)
    → Sendable s
    → is_int pid ≡ true
    → is_slave cfg.slave_ip ≡ true
    → read_service peer_ip (input (" " ++ service_text cfg pid s)) ≡ given_service cfg pid s
unfolding read_service service_text
read_service-service_text peer_ip cfg pid s h p k =
    let ip = tok cfg.slave_ip in
    let word : is_one_word ip ≡ true = dash-word cfg.slave_ip k in
    let t8 = ip in
    let t7 = tok s.ownership ++ (" " ++ t8) in
    let t6 = tok s.interaction_protocol ++ (" " ++ t7) in
    let t5 = tok s.ontology ++ (" " ++ t6) in
    let t4 = s.language ++ (" " ++ t5) in
    let t3 = s.service_name ++ (" " ++ t4) in
    let t2 = s.type ++ (" " ++ t3) in
    let t1 = to_string pid ++ (" " ++ t2) in
    rw (slave_text-dash cfg) (
      rw (read_word-next s.agent_name (" " ++ t1) "" h.agent_name_ok (ends_word-blank t1)) (
        rw (read_int-next pid (pos 0) t2 p) (
          rw (read_word-next s.type (" " ++ t3) "" h.type_ok (ends_word-blank t3)) (
            rw (read_word-next s.service_name (" " ++ t4) "" h.service_name_ok (ends_word-blank t4))
              (rw (read_word-next s.language (" " ++ t5) "" h.language_ok (ends_word-blank t5)) (
                rw
                  (read_word-next (tok s.ontology) (" " ++ t6) ""
                    (dash-word s.ontology h.ontology_ok) (ends_word-blank t6))
                  (rw
                    (read_word-next (tok s.interaction_protocol) (" " ++ t7) ""
                      (dash-word s.interaction_protocol h.interaction_protocol_ok)
                      (ends_word-blank t7))
                    (rw
                      (read_word-next (tok s.ownership) (" " ++ t8) ""
                        (dash-word s.ownership h.ownership_ok) (ends_word-blank t8))
                      (rw (read_word-last ip "" word) (
                        rw (word-full ip word) (
                          rw (undash-dash s.ontology h.ontology_ok) (
                            rw (undash-dash s.interaction_protocol h.interaction_protocol_ok) (
                              rw (undash-dash s.ownership h.ownership_ok)
                                (rw (undash-dash cfg.slave_ip k) refl))))))))))))))

-- `registerService` over the connection adds the service that its arguments describe, and returns true.
-- The arguments are words, of which the ontology, the protocol and the ownership may be missing; the
-- pid has 32 bits, and the slave is none or a word other than `-`.
pub register_service-remote :
    (alive : ℤ → Bool) (peer_ip : String) (cfg : Config) (pid : ℤ) (s : ServiceInfo) (d : Df)
    → Sendable s
    → is_int pid ≡ true
    → is_slave cfg.slave_ip ≡ true
    → register_service (serve alive peer_ip) cfg pid s d
      ≡ (true, DfPart.register_service (given_service cfg pid s) d)
unfolding register_service serve handle_client
register_service-remote alive peer_ip cfg pid s d h p k =
    let after = DfPart.register_service (given_service cfg pid s) d in
    let line = "REGISTER " ++ service_text cfg pid s in
    let read = read_line-append line "" (service_line cfg pid s h k) in
    ap answered (
      request-line (serve alive peer_ip) line "OK" "" d after
        (ap (λ q. some (handle_client alive peer_ip q.0 d)) read ∙ ap some served)
        (record { no_break = refl }))
    ∙ unfold is_ok in refl
  where
    blank : OneLine " "
    blank = record { no_break = refl }

    field : (v : String) → is_slave v ≡ true → OneLine (tok v)
    field v e = word-OneLine (tok v) (dash-word v e)

    service_line :
        (cfg : Config) (pid : ℤ) (s : ServiceInfo)
        → Sendable s
        → is_slave cfg.slave_ip ≡ true
        → OneLine ("REGISTER " ++ service_text cfg pid s)
    service_line cfg pid s h k =
        unfold service_text in
        OneLine-append (record { no_break = refl })
          (OneLine-append (word-OneLine s.agent_name h.agent_name_ok) (
            OneLine-append blank (
              OneLine-append (to_string-OneLine pid) (
                OneLine-append blank (
                  OneLine-append (word-OneLine s.type h.type_ok) (
                    OneLine-append blank (
                      OneLine-append (word-OneLine s.service_name h.service_name_ok) (
                        OneLine-append blank (
                          OneLine-append (word-OneLine s.language h.language_ok) (
                            OneLine-append blank (
                              OneLine-append (field s.ontology h.ontology_ok) (
                                OneLine-append blank (
                                  OneLine-append
                                    (field s.interaction_protocol h.interaction_protocol_ok)
                                    (OneLine-append blank (
                                      OneLine-append (field s.ownership h.ownership_ok) (
                                        OneLine-append blank (
                                          rw (slave_text-dash cfg)
                                            (field cfg.slave_ip k))))))))))))))))))

    served :
        handle_client alive peer_ip ("REGISTER " ++ service_text cfg pid s) d
        ≡ ("OK\n", DfPart.register_service (given_service cfg pid s) d)
    served =
        rw (read_word-command "REGISTER" (service_text cfg pid s) "" refl)
          (rw (read_service-service_text peer_ip cfg pid s h p k) refl)
