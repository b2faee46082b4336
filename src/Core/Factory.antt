-- ===== src/Core/Factory.antt =====
-- include/gagent/core/BehaviourFactory.hpp: the map of creators, over the types of agents and behaviours.
-- An unknown type throws.
use g_agent.Base.{
  string_key, String, List, Bool, Option, none, some, insert, lookup, contains, ◌≡◌, true, false,
  if◌then◌else◌, ◌==◌, refl, lookup-insert,
}
use g_agent.Platform.Clients.{Outcome, returns, throws}

module _ {Agent Behaviour : Type 0} where
  abbrev register_behaviour :
      String
      → (Agent → Behaviour)
      → List (String × (Agent → Behaviour))
      → List (String × (Agent → Behaviour))
  register_behaviour name creator creators = insert name creator creators

  abbrev made_by : Option (Agent → Behaviour) → Agent → Outcome Behaviour
  made_by none agent = throws
  made_by (some creator) agent = returns (creator agent)

  unfoldable create : String → Agent → List (String × (Agent → Behaviour)) → Outcome Behaviour
  create name agent creators = made_by (lookup name creators) agent

  abbrev is_registered : String → List (String × (Agent → Behaviour)) → Bool
  is_registered name creators = contains name creators

  -- A creator is the one of its own name, and of no other.
  create-register_behaviour :
      (name other : String) (creator : Agent → Behaviour) (agent : Agent)
      (creators : List (String × (Agent → Behaviour)))
      → create other agent (register_behaviour name creator creators)
        ≡ (if name == other then returns (creator agent) else create other agent creators)
  unfolding create
  create-register_behaviour name other creator agent creators =
      rw (lookup-insert name other creator creators) (by_name (name == other))
    where
      by_name :
          (b : Bool)
          → made_by (if b then some creator else lookup other creators) agent
            ≡ (if b then returns (creator agent) else made_by (lookup other creators) agent)
      by_name true = refl
      by_name false = refl
