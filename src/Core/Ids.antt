-- ===== src/Core/Ids.antt =====
-- src/core/AgentID.cpp, DFAgentDescription.cpp and DFService.cpp: the
-- identifier of an agent, and the registration of a service under it. `picks` gives what the uniform
-- distribution over the characters draws.
use Prim.Native.String.{◌++◌}
use text.Mathlib.TextLemmas.{nil-append, cons-append}
use g_agent.Base.{
  ℕ, zero, suc, String, List, ◌∷◌, Option, none, some, if◌then◌else◌, ◌==◌, string_key, ℤ, ◌≡◌,
  true, refl, both_true,
}
use g_agent.Platform.Input.Words.{spaceless}
use g_agent.Platform.Config.{Config}
use g_agent.Platform.Clients.{Server}
use g_agent.Platform.Clients.Df.{ServiceInfo, register_service}

unfoldable char_at : ℕ → String → String
char_at k String.[] = ""
char_at zero (String.◌∷◌ c s) = String.◌∷◌ c ""
char_at (suc k) (String.◌∷◌ c s) = char_at k s

abbrev alphanums : String
alphanums = "0123456789abcdefghijklmnopqrstuvwxyzABCDEFGHIJKLMNOPQRSTUVWXYZ"

-- `picks k` is drawn when k characters are still to come.
unfoldable random_string : (ℕ → ℕ) → ℕ → String
unfolding char_at
random_string picks zero = ""
random_string picks (suc k) = char_at (picks k) alphanums ++ random_string picks k

pub record AgentId : Type 0 where
  pub agent_adresse : String
  pub agent_name : String
  pub agent_id : String

unfoldable new_agent_id : (ℕ → ℕ) → AgentId
unfolding random_string
new_agent_id picks = record {
  agent_adresse = "";
  agent_name = "";
  agent_id = random_string picks 8;
}

abbrev set_name : String → AgentId → AgentId
set_name name i = record i { agent_name = name }

abbrev set_addresse : String → AgentId → AgentId
set_addresse adr i = record i { agent_adresse = adr }

-- The pointers to an identifier and to services are numbers.
pub record DfAgentDescription : Type 0 where
  pub df_services_list : List ℕ
  pub df_type : String
  pub agent_id : Option ℕ

abbrev set_agent_id : ℕ → DfAgentDescription → DfAgentDescription
set_agent_id aid d = record d { agent_id = some aid }

abbrev set_df_type : String → DfAgentDescription → DfAgentDescription
set_df_type type d = record d { df_type = type }

abbrev add_df_services : ℕ → DfAgentDescription → DfAgentDescription
add_df_services srv d = record d { df_services_list = srv ∷ d.df_services_list }

-- The service of an agent under a description, with the values that the header of the client gives the
-- arguments that are left out.
unfoldable described : AgentId → DfAgentDescription → ServiceInfo
described i d =
    let name = if i.agent_name == "" then i.agent_id else i.agent_name in
    record {
      agent_name = name;
      type = if d.df_type == "" then "generic" else d.df_type;
      service_name = name ++ "-service";
      language = "fipa-sl";
      ontology = "-";
      interaction_protocol = "fipa-request";
      ownership = "-";
    }

module _ {S : Type 0} (server : Server S) (cfg : Config) (pid : ℤ) where
  -- Nothing for a null pointer. The result of the client is not looked at.
  unfoldable register_described : Option AgentId → Option DfAgentDescription → S → S
  unfolding described register_service
  register_described (some i) (some d) st = (register_service server cfg pid (described i d) st).1
  register_described (some i) none st = st
  register_described none d st = st

char_at-spaceless :
    (k : ℕ) (s t : String)
    → spaceless s ≡ true
    → spaceless t ≡ true
    → spaceless (char_at k s ++ t) ≡ true
unfolding char_at
char_at-spaceless k String.[] t h g = rw (nil-append t) g
char_at-spaceless zero (String.◌∷◌ c s) t h g =
    rw (cons-append c "" t) (rw (nil-append t) (rw ((both_true _ (spaceless s) h).0) g))
char_at-spaceless (suc k) (String.◌∷◌ c s) t h g =
    char_at-spaceless k s t (both_true _ (spaceless s) h).1 g

-- An identifier has no blanks, and so it is read back as one word.
random_string-spaceless : (picks : ℕ → ℕ) (n : ℕ) → spaceless (random_string picks n) ≡ true
unfolding random_string
random_string-spaceless picks zero = refl
random_string-spaceless picks (suc k) =
    char_at-spaceless (picks k) alphanums (random_string picks k) refl
      (random_string-spaceless picks k)
