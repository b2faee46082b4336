-- ===== src/Core/Fsm.antt =====
-- `FSMBehaviour` of Behaviour.cpp.
pub mod Walk
use mathlib.Core.Option
use g_agent.Base.{
  ℕ, String, List, [], ◌∷◌, Bool, true, false, ◌&&◌, ◌||◌, not, if◌then◌else◌, Option, none, some,
  or_else, is_some, ◌==◌, nat_key, string_key, int_key, ℤ, pos, Map, lookup, insert, contains,
}
use g_agent.Core.Behaviour.{Methods}

pub record StateEntry : Type 0 where
  pub beh : ℕ
  pub is_last : Bool

pub record Fsm : Type 0 where
  pub this_agent : ℕ
  pub states : Map String StateEntry
  pub transitions : Map String (Map ℤ String)
  pub default_transitions : Map String String
  pub first_state : String
  pub current_state : String
  pub finished : Bool

-- `b->this_agent = this_agent`, in a store of that field.
abbrev set_owner : (ℕ → ℕ) → ℕ → ℕ → ℕ → ℕ
set_owner owner b a p = if b == p then a else owner p

add_entry : Bool → ℕ → String → Fsm × (ℕ → ℕ) → Fsm × (ℕ → ℕ)
add_entry final b name (s, owner) = (
  record s { states = insert name (record { beh = b; is_last = final }) s.states },
  set_owner owner b s.this_agent,
)

unfoldable pub register_state : ℕ → String → Fsm × (ℕ → ℕ) → Fsm × (ℕ → ℕ)
unfolding add_entry
register_state b name x = add_entry false b name x

unfoldable pub register_last_state : ℕ → String → Fsm × (ℕ → ℕ) → Fsm × (ℕ → ℕ)
unfolding add_entry
register_last_state b name x = add_entry true b name x

unfoldable pub register_first_state : ℕ → String → Fsm × (ℕ → ℕ) → Fsm × (ℕ → ℕ)
unfolding add_entry
register_first_state b name x =
    let (s, owner) = add_entry false b name x in (record s { first_state = name }, owner)

-- `transitions_[from][exit_value] = to`
unfoldable pub register_transition : String → String → ℤ → Fsm → Fsm
register_transition from to v s = record s {
  transitions = insert from (insert v to (or_else (lookup from s.transitions) [])) s.transitions;
}

unfoldable pub register_default_transition : String → String → Fsm → Fsm
register_default_transition from to s = record s {
  default_transitions = insert from to s.default_transitions;
}

-- The resolution of the transition: the empty text is "no state".
unfoldable pub next_state : Fsm → String → ℤ → String
next_state s from v =
    let specific = or_else (Option.bind (lookup from s.transitions) (lookup v)) "" in
    if specific == "" then or_else (lookup from s.default_transitions) "" else specific

module _ {W : Type 0} (obj : ℕ → Methods W) where
  abbrev pub start_state : Option StateEntry → W → W
  start_state none w = w
  start_state (some e) w = (obj e.beh).on_start w

  unfoldable pub on_start : Fsm × W → Fsm × W
  on_start (s, w) = (
    record s { finished = false; current_state = s.first_state },
    if s.first_state == "" then w else start_state (lookup s.first_state s.states) w,
  )

  abbrev pub stop : Fsm → W → Fsm × W
  stop s w = (record s { finished = true }, w)

  -- The end of `action`, where the next state is found in the map or not.
  abbrev pub enter : String → Option StateEntry → Fsm → W → Fsm × W
  enter name none s w = stop s w
  enter name (some e) s w = (record s { current_state = name }, (obj e.beh).on_start w)

  abbrev pub leave_for : String → Fsm → W → Fsm × W
  leave_for name s w = if name == "" then stop s w else enter name (lookup name s.states) s w

  -- What follows `cur->done()`.
  abbrev pub after_done : StateEntry → Fsm → Bool × W → Fsm × W
  after_done e s (false, w) = (s, w)
  after_done e s (true, w) =
      let v = (obj e.beh).exit_value w in
      let u = (obj e.beh).on_end w in
      if e.is_last then stop s u else leave_for (next_state s s.current_state v) s u

  abbrev pub act_in : Option StateEntry → Fsm → W → Fsm × W
  act_in none s w = stop s w
  act_in (some e) s w = after_done e s ((obj e.beh).done ((obj e.beh).action w))

  unfoldable pub action : Fsm × W → Fsm × W
  action (s, w) =
      if s.finished || s.current_state == ""
      then (s, w)
      else act_in (lookup s.current_state s.states) s w

  unfoldable pub done : Fsm × W → Bool × (Fsm × W)
  done (s, w) = (s.finished, (s, w))

  abbrev pub fsm_methods : Methods (Fsm × W)
  fsm_methods = record {
    on_start = on_start;
    action = action;
    done = done;
    on_end = λ x. x;
    exit_value = λ x. pos 0;
  }
