-- ===== src/Platform/Manager/Printing.antt =====
-- The tables of platform/manager/Manager.cpp: `print_agents`, `print_services` and what `cmd_list` and
-- a screen of `cmd_watch` print. A width is counted in the characters of the text, which are bytes.
use Prim.Native.String.{◌++◌}
use g_agent.Base.{ℕ, zero, suc, String, List, [], ◌∷◌, if◌then◌else◌, ◌==◌, string_key, length}
use g_agent.Platform.Input.{to_string, decimal}
use g_agent.Platform.Clients.Ams.{AgentInfo}
use g_agent.Platform.Clients.Df.{ServiceInfo}

abbrev reset : String
reset = "\u{1b}[0m"

abbrev bold : String
bold = "\u{1b}[1m"

abbrev state_color : String → String
state_color state =
    if state == "active"
    then "\u{1b}[32m"
    else if state == "suspended"
    then "\u{1b}[33m"
    else if state == "waiting"
    then "\u{1b}[36m"
    else if state == "deleted"
    then "\u{1b}[31m"
    else "\u{1b}[0m"

-- `std::string(n, c)`
unfoldable repeat : ℕ → String → String
repeat zero c = ""
repeat (suc n) c = c ++ repeat n c

-- `std::left << std::setw(n)`
unfoldable left : ℕ → String → String
unfolding repeat
left n String.[] = repeat n " "
left zero (String.◌∷◌ c s) = String.◌∷◌ c s
left (suc n) (String.◌∷◌ c s) = String.◌∷◌ c (left n s)

unfoldable agent_row : AgentInfo → String
unfolding left to_string
agent_row a =
    left 20 a.name
    ++ left 8 (to_string a.pid)
    ++ left 30 a.address
    ++ left 12 (if a.slave_ip == "" then "local" else a.slave_ip)
    ++ state_color a.state
    ++ a.state
    ++ reset
    ++ "\n"

agent_rows : List AgentInfo → String
unfolding agent_row
agent_rows [] = ""
agent_rows (a ∷ l) = agent_row a ++ agent_rows l

unfoldable print_agents : List AgentInfo → String
unfolding agent_rows left repeat
print_agents [] = "  (aucun agent enregistré)\n"
print_agents (a ∷ l) =
    bold
    ++ left 20 "NOM"
    ++ left 8 "PID"
    ++ left 30 "ENDPOINT ZMQ"
    ++ left 12 "SLAVE"
    ++ "ÉTAT"
    ++ reset
    ++ "\n"
    ++ repeat 74 "-"
    ++ "\n"
    ++ agent_rows (a ∷ l)

unfoldable service_row : ServiceInfo → String
unfolding left
service_row s =
    left 20 s.agent_name
    ++ left 16 s.type
    ++ left 20 s.service_name
    ++ left 12 s.language
    ++ s.ontology
    ++ "\n"

service_rows : List ServiceInfo → String
unfolding service_row
service_rows [] = ""
service_rows (s ∷ l) = service_row s ++ service_rows l

unfoldable print_services : List ServiceInfo → String
unfolding service_rows left repeat
print_services [] = "  (aucun service trouvé)\n"
print_services (s ∷ l) =
    bold
    ++ left 20 "AGENT"
    ++ left 16 "TYPE"
    ++ left 20 "SERVICE"
    ++ left 12 "LANGAGE"
    ++ "ONTOLOGIE"
    ++ reset
    ++ "\n"
    ++ repeat 78 "-"
    ++ "\n"
    ++ service_rows (s ∷ l)

-- What `cmd_df_search` prints for the services of the DF.
unfoldable print_search : String → String → List ServiceInfo → String
unfolding print_services decimal
print_search type ontology services =
    bold
    ++ "[DF] "
    ++ decimal (length services)
    ++ " service(s) pour type=\""
    ++ type
    ++ "\""
    ++ (if ontology == "" then "" else " ontologie=\"" ++ ontology ++ "\"")
    ++ "\n"
    ++ reset
    ++ print_services services

-- What `cmd_list` prints for the agents of the AMS.
unfoldable print_list : List AgentInfo → String
unfolding print_agents decimal
print_list agents =
    bold ++ "[AMS] " ++ decimal (length agents) ++ " agent(s)\n" ++ reset ++ print_agents agents

watched_services : List ServiceInfo → String
unfolding print_services decimal
watched_services [] = ""
watched_services (s ∷ l) =
    bold ++ "Services DF (" ++ decimal (length (s ∷ l)) ++ ")\n" ++ reset ++ print_services (s ∷ l)

-- A turn of `cmd_watch` at the time `now`.
unfoldable print_watch : String → List AgentInfo → List ServiceInfo → String
unfolding print_agents watched_services decimal
print_watch now agents services =
    "\u{1b}[2J\u{1b}[H"
    ++ bold
    ++ "gAgent — "
    ++ now
    ++ "  (Ctrl+C pour quitter)"
    ++ reset
    ++ "\n\n"
    ++ bold
    ++ "Agents ("
    ++ decimal (length agents)
    ++ ")\n"
    ++ reset
    ++ print_agents agents
    ++ "\n"
    ++ watched_services services
