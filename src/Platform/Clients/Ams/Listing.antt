-- ===== src/Platform/Clients/Ams/Listing.antt =====
-- LIST over a connection of src/platform/AMSClient.cpp to platform/ams/AMS.cpp.
use mathlib.Core.Option
use Prim.Native.String.{◌++◌}
use text.Mathlib.TextLemmas.{append_assoc, append-nil}
use g_agent.Base.{
  ℕ, String, List, [], ◌∷◌, Bool, true, none, some, if◌then◌else◌, map, Map, length, leb, ◌≡◌, refl,
  sym, ap, ◌∙◌, ℤ, pos,
}
use g_agent.Platform.Input.{input, decimal, read_word, read_int, to_string}
use g_agent.Platform.Input.Numbers.{read_int-to_string}
use g_agent.Platform.Ams.{AgentRecord}
use g_agent.Platform.Ams.Server.{
  Master, agent_lines, purge_dead, serve_list, command_of, serve_command, handle_client,
}
use g_agent.Platform.Config.{stoi}
use g_agent.Platform.Clients.{
  read_line, returns, count_of, counted, read_from, read_counted, connected,
}
use g_agent.Platform.Clients.Lines.{
  OneLine, OneLine-append, to_string-OneLine, read_line-append, is_ok-append, behind_ok-append,
}
use g_agent.Platform.Clients.Ams.{AgentInfo, read_infos, list}
use g_agent.Platform.Clients.Ams.Session.{
  serve, Readable, info_of, agent_text, agent_line-text, agent_text-OneLine, read_info-agent_text,
}

-- Every record can be taken apart again.
abbrev pub AllReadable : Map String AgentRecord → Type 0
AllReadable [] = Unit
AllReadable ((n, r) ∷ l) = Readable r × AllReadable l

abbrev pub infos_of : Map String AgentRecord → List AgentInfo
infos_of l = map (λ e. info_of e.1) l

read_infos-agent_lines :
    (l : Map String AgentRecord)
    → AllReadable l
    → read_infos (length l) (agent_lines l) ≡ infos_of l
unfolding read_infos agent_lines
read_infos-agent_lines [] h = refl
read_infos-agent_lines ((n, r) ∷ l) (h, k) = rw (agent_line-text r (agent_lines l)) (
    rw (read_line-append (agent_text r) (agent_lines l) (agent_text-OneLine r h)) (
      ap (λ i. i ∷ read_infos (length l) (agent_lines l)) (read_info-agent_text r h)
      ∙ ap (λ is. info_of r ∷ is) (read_infos-agent_lines l k)))

pub stoi-decimal : (n : ℕ) → leb n 2147483647 ≡ true → stoi (decimal n) ≡ some (pos n)
unfolding stoi to_string
stoi-decimal n h =
    ap (λ p. if p.1.good then some p.0 else none)
      (ap (λ s. read_int (input s) (pos 0)) (sym (append-nil (decimal n)))
        ∙ read_int-to_string (pos n) (pos 0) "" h refl)

count_of-decimal : (n : ℕ) → leb n 2147483647 ≡ true → count_of ("OK " ++ decimal n) ≡ some (pos n)
unfolding count_of Option.bind
count_of-decimal n h =
    ap (λ o. Option.bind o stoi) (behind_ok-append (decimal n)) ∙ stoi-decimal n h

-- An answer with a count and as many lines is read by the reader of its lines.
pub read_counted-answer :
    {A : Type 0} (read : ℕ → String → List A) (n : ℕ) (lines : String)
    → leb n 2147483647 ≡ true
    → read_counted read ("OK " ++ (decimal n ++ ("\n" ++ lines))) ≡ returns (read n lines)
read_counted-answer read n lines h =
    let first = "OK " ++ decimal n in
    let number : OneLine (decimal n) = unfold to_string in to_string-OneLine (pos n) in
    let line : OneLine first = OneLine-append (record { no_break = refl }) number in
    ap (read_counted read) (sym (append_assoc "OK " (decimal n) ("\n" ++ lines)))
    ∙ ap (read_from read) (read_line-append first lines line)
    ∙ rw (is_ok-append (decimal n)) (ap (λ c. counted read c lines) (count_of-decimal n h))

-- `list` returns what the server's registry holds, in the order of the names, once the local agents
-- whose process is gone have left it; it makes them leave. The records left are ones that a reader can
-- take apart, and their count is below 2^31.
pub list-purge_dead :
    (alive : ℤ → Bool) (now : ℕ) (peer_ip : String) (m : Master)
    → AllReadable (purge_dead alive m.ams).registry
    → leb (length (purge_dead alive m.ams).registry) 2147483647 ≡ true
    → list (serve alive now peer_ip) m ≡ (
      returns (infos_of (purge_dead alive m.ams).registry),
      record m { ams = purge_dead alive m.ams },
    )
unfolding list serve
list-purge_dead alive now peer_ip m h k =
    let l = (purge_dead alive m.ams).registry in
    let after : Master = record m { ams = purge_dead alive m.ams } in
    ap (λ p. connected (read_counted read_infos) (some p) m) (served alive now peer_ip m)
    ∙ ap (λ o. (o, after)) (read_counted-answer read_infos (length l) (agent_lines l) k)
    ∙ ap (λ is. (returns is, after)) (read_infos-agent_lines l h)
  where
    served :
        (alive : ℤ → Bool) (now : ℕ) (peer_ip : String) (m : Master)
        → handle_client alive now peer_ip (read_line "LIST\n").0 m ≡ (
            let a = purge_dead alive m.ams in
            (
              "OK " ++ (decimal (length a.registry) ++ ("\n" ++ agent_lines a.registry)),
              record m { ams = a },
            ))
    served alive now peer_ip m =
        unfold read_line handle_client read_word command_of serve_command serve_list in refl
