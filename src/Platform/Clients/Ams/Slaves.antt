-- ===== src/Platform/Clients/Ams/Slaves.antt =====
-- LIST_SLAVES over a connection of src/platform/AMSClient.cpp to platform/ams/AMS.cpp.
use Prim.Native.String.{◌++◌}
use text.Mathlib.TextLemmas.{append_assoc}
use g_agent.Base.{
  ℕ, String, List, [], ◌∷◌, Bool, true, none, some, Option, length, leb, ◌≡◌, refl, ap, ◌∙◌, ℤ, pos,
}
use g_agent.Platform.Input.{read_word, to_string, decimal}
use g_agent.Platform.Input.Words.{is_one_word, read_word-append, ends_word-blank}
use g_agent.Platform.Input.Numbers.{is_int, read_int-last}
use g_agent.Platform.Slaves.{SlaveRegistry, slave_list}
use g_agent.Platform.Ams.Server.{
  Master, slave_lines, serve_list_slaves, command_of, serve_command, handle_client,
}
use g_agent.Platform.Clients.{read_line, returns, read_counted, connected}
use g_agent.Platform.Clients.Lines.{
  OneLine, OneLine-append, word-OneLine, to_string-OneLine, read_line-append,
}
use g_agent.Platform.Clients.Ams.{read_slave, read_slaves, list_slaves}
use g_agent.Platform.Clients.Ams.Session.{serve}
use g_agent.Platform.Clients.Ams.Listing.{read_counted-answer}

-- The addresses are words and the ports 32-bit numbers.
abbrev pub AllSlaves : List (String × ℤ) → Type 0
AllSlaves [] = Unit
AllSlaves ((ip, port) ∷ l) = ((is_one_word ip ≡ true) × (is_int port ≡ true)) × AllSlaves l

-- What the registry of slaves lists, which may not be there.
abbrev pub slaves_of : Option SlaveRegistry → List (String × ℤ)
slaves_of none = []
slaves_of (some r) = slave_list r

abbrev slave_text : String → ℤ → String
slave_text ip port = ip ++ (" " ++ to_string port)

read_slave-text :
    (ip : String) (port : ℤ)
    → is_one_word ip ≡ true
    → is_int port ≡ true
    → read_slave (slave_text ip port) ≡ (ip, port)
unfolding read_slave
read_slave-text ip port h k =
    rw (read_word-append ip (" " ++ to_string port) "" h (ends_word-blank (to_string port)))
      (rw (read_int-last port (pos 0) k) refl)

slave_text-OneLine : (ip : String) (port : ℤ) → is_one_word ip ≡ true → OneLine (slave_text ip port)
slave_text-OneLine ip port h =
    OneLine-append (word-OneLine ip h)
      (OneLine-append (record { no_break = refl }) (to_string-OneLine port))

slave_lines-text :
    (ip : String) (port : ℤ) (l : List (String × ℤ))
    → slave_lines ((ip, port) ∷ l) ≡ slave_text ip port ++ ("\n" ++ slave_lines l)
unfolding slave_lines
slave_lines-text ip port l = simp append_assoc

read_slaves-slave_lines :
    (l : List (String × ℤ)) → AllSlaves l → read_slaves (length l) (slave_lines l) ≡ l
unfolding read_slaves
read_slaves-slave_lines [] h = refl
read_slaves-slave_lines ((ip, port) ∷ l) ((h, p), k) = rw (slave_lines-text ip port l) (
    rw (read_line-append (slave_text ip port) (slave_lines l) (slave_text-OneLine ip port h)) (
      ap (λ i. i ∷ read_slaves (length l) (slave_lines l)) (read_slave-text ip port h p)
      ∙ ap (λ is. (ip, port) ∷ is) (read_slaves-slave_lines l k)))

-- `listSlaves` over the connection returns what the registry of slaves lists, and changes nothing: the
-- addresses are words, the ports 32-bit numbers, and their count is below 2^31. Without a registry it
-- returns no slave.
pub list_slaves-remote :
    (alive : ℤ → Bool) (now : ℕ) (peer_ip : String) (m : Master)
    → AllSlaves (slaves_of m.slave_registry)
    → leb (length (slaves_of m.slave_registry)) 2147483647 ≡ true
    → list_slaves (serve alive now peer_ip) m ≡ (returns (slaves_of m.slave_registry), m)
unfolding list_slaves serve
list_slaves-remote alive now peer_ip m h k =
    let l = slaves_of m.slave_registry in
    ap (λ p. connected (read_counted read_slaves) (some p) m) served
    ∙ ap (λ t. connected (read_counted read_slaves) (some (t, m)) m) (listed m.slave_registry)
    ∙ ap (λ o. (o, m)) (read_counted-answer read_slaves (length l) (slave_lines l) k)
    ∙ ap (λ is. (returns is, m)) (read_slaves-slave_lines l h)
  where
    served :
        handle_client alive now peer_ip (read_line "LIST_SLAVES\n").0 m
        ≡ (serve_list_slaves m.slave_registry, m)
    served = unfold read_line read_word handle_client command_of serve_command in refl

    listed :
        (o : Option SlaveRegistry)
        → serve_list_slaves o
          ≡ "OK " ++ (decimal (length (slaves_of o)) ++ ("\n" ++ slave_lines (slaves_of o)))
    listed none = unfold serve_list_slaves decimal slave_lines in refl
    listed (some r) = unfold serve_list_slaves in refl
