-- ===== src/Core/Fsm/Walk.antt =====
-- The ways of the state machines of Behaviour.cpp through their states.
use mathlib.Core.Option
use g_agent.Base.{
  ◌∙◌, Option, none, ℤ, int_key, Map, or_else, refl, String, Bool, true, false, if◌then◌else◌, ◌≡◌,
  some, ◌==◌, string_key, lookup, is_some, Bool-cases, Option-cases, inl, inr, ℕ, subst, sym,
}
use g_agent.Core.Behaviour.{Methods, Loops, last, more, Runs, ran}
use g_agent.Core.Fsm.{
  StateEntry, Fsm, next_state, start_state, on_start, stop, enter, leave_for, after_done, act_in,
  action, done, fsm_methods,
}

module _ {W : Type 0} (obj : ℕ → Methods W) (s : Fsm) where
  -- No transition of the state is for this exit value, or one to the empty name.
  pub data HasNone (name : String) (v : ℤ) : Type 0 where
    no_row : lookup name s.transitions ≡ none → HasNone name v
    no_value :
        (row : Map ℤ String)
        → lookup name s.transitions ≡ some row
        → lookup v row ≡ none
        → HasNone name v
    no_name :
        (row : Map ℤ String)
        → lookup name s.transitions ≡ some row
        → lookup v row ≡ some ""
        → HasNone name v

  -- There is a state to go to.
  abbrev pub is_state : String → Bool
  is_state name = if name == "" then false else is_some (lookup name s.states)

  -- What is registered for the end of the state `name` with the exit value `v`: its own transition for
  -- that value, and only without one the default; the empty text where there is neither.
  pub data Leads (name : String) (v : ℤ) : String → Type 0 where
    by_value :
        (row : Map ℤ String) (to : String)
        → lookup name s.transitions ≡ some row
        → lookup v row ≡ some to
        → (to == "") ≡ false
        → Leads name v to
    by_default :
        (to : String)
        → HasNone name v
        → lookup name s.default_transitions ≡ some to
        → Leads name v to
    nowhere : HasNone name v → lookup name s.default_transitions ≡ none → Leads name v ""

  -- From the state `name`, started in the world `w`, the machine comes to its end in the state `to`
  -- and the world `u`.
  pub data Walk : String → W → String → W → Type 0 where
    at_last :
        {name : String} {w v : W} (e : StateEntry)
        → lookup name s.states ≡ some e
        → Loops (obj e.beh) w v
        → e.is_last ≡ true
        → Walk name w name ((obj e.beh).on_end v)
    stuck :
        {name : String} {w v : W} (e : StateEntry) (next : String)
        → lookup name s.states ≡ some e
        → Loops (obj e.beh) w v
        → e.is_last ≡ false
        → Leads name ((obj e.beh).exit_value v) next
        → is_state next ≡ false
        → Walk name w name ((obj e.beh).on_end v)
    moves :
        {name to : String} {w v u : W} (e d : StateEntry) (next : String)
        → lookup name s.states ≡ some e
        → Loops (obj e.beh) w v
        → e.is_last ≡ false
        → Leads name ((obj e.beh).exit_value v) next
        → (next == "") ≡ false
        → lookup next s.states ≡ some d
        → Walk next ((obj d.beh).on_start ((obj e.beh).on_end v)) to u
        → Walk name w to u

  specific_of : (name : String) (v : ℤ) → Option String
  specific_of name v = Option.bind (lookup name s.transitions) (lookup v)

  HasNone-empty :
      {name : String} {v : ℤ} → HasNone name v → (or_else (specific_of name v) "" == "") ≡ true
  unfolding specific_of Option.bind
  HasNone-empty (no_row h) = rw h refl
  HasNone-empty (no_value row h k) = rw h (rw k refl)
  HasNone-empty (no_name row h k) = rw h (rw k refl)

  -- The two tries of the resolution.
  resolved : (name : String) (v : ℤ) → String
  resolved name v =
      if or_else (specific_of name v) "" == ""
      then or_else (lookup name s.default_transitions) ""
      else or_else (specific_of name v) ""

  next_state-resolved : (name : String) (v : ℤ) → next_state s name v ≡ resolved name v
  unfolding next_state resolved specific_of
  next_state-resolved name v = refl

  Leads-resolved : {name : String} {v : ℤ} {to : String} → Leads name v to → resolved name v ≡ to
  unfolding resolved
  Leads-resolved {name} {v} (by_value row to h k full) =
      let found : specific_of name v ≡ some to = unfold specific_of Option.bind in rw h k in
      rw found (rw full refl)
  Leads-resolved (by_default to h k) = rw (HasNone-empty h) (rw k refl)
  Leads-resolved (nowhere h k) = rw (HasNone-empty h) (rw k refl)

  Leads-next_state :
      {name : String} {v : ℤ} {to : String} → Leads name v to → next_state s name v ≡ to
  Leads-next_state {name} {v} l = next_state-resolved name v ∙ Leads-resolved l

  abbrev at : String → Fsm
  at name = record s { current_state = name; finished = false }

  abbrev FsmLoops : Fsm × W → Fsm × W → Type 0
  FsmLoops = Loops (fsm_methods obj)

  -- What `action` makes of a state that has ended in the world `v`.
  abbrev after : String → StateEntry → W → Fsm × W
  after name e v =
      let u = (obj e.beh).on_end v in
      if e.is_last
      then stop obj (at name) u
      else leave_for obj (next_state s name ((obj e.beh).exit_value v)) (at name) u

  state_goes_on :
      (name : String) (e : StateEntry) {w v : W}
      → (name == "") ≡ false
      → lookup name s.states ≡ some e
      → (obj e.beh).done ((obj e.beh).action w) ≡ (false, v)
      → done obj (action obj (at name, w)) ≡ (false, (at name, v))
  unfolding action done
  state_goes_on name e named here t = rw named (rw (here, act_in) (rw (t, after_done)))

  state_ends :
      (name : String) (e : StateEntry) {w v : W}
      → (name == "") ≡ false
      → lookup name s.states ≡ some e
      → (obj e.beh).done ((obj e.beh).action w) ≡ (true, v)
      → done obj (action obj (at name, w)) ≡ done obj (after name e v)
  unfolding action next_state
  state_ends name e named here t = rw named (rw (here, act_in) (rw (t, after_done)))

  loop_of_state :
      (name : String) (e : StateEntry) {w v : W} {r : Fsm × W}
      → (name == "") ≡ false
      → lookup name s.states ≡ some e
      → Loops (obj e.beh) w v
      → ((x : W)
          → done obj (action obj (at name, x)) ≡ done obj (after name e v)
          → FsmLoops (at name, x) r)
      → FsmLoops (at name, w) r
  loop_of_state name e {w} named here (last t) rest = rest w (state_ends name e named here t)
  loop_of_state name e named here (more t l) rest =
      more (state_goes_on name e named here t) (loop_of_state name e named here l rest)

  leave_for-stuck :
      (n name : String) (u : W)
      → is_state n ≡ false
      → leave_for obj n (at name) u ≡ stop obj (at name) u
  leave_for-stuck n name u h = elim (Bool-cases (n == "")) [
    | inl e ↦ rw e
    | inr e ↦ elim (Option-cases (lookup n s.states)) [
      | inl f ↦ rw e (rw (f, enter))
      | inr (d, f) ↦ let yes_it_is : is_state n ≡ true = rw e (rw f) in cc
    ]
  ]

  Walk-Loops :
      {name to : String} {w u : W}
      → (name == "") ≡ false
      → Walk name w to u
      → FsmLoops (at name, w) (record s { current_state = to; finished = true }, u)
  unfolding done
  Walk-Loops {name} named (at_last {v = v} e here l final) =
      loop_of_state name e named here l λ x t.
        last (
          let a : after name e v ≡ stop obj (at name) ((obj e.beh).on_end v) = rw final in
          rw a at t)
  Walk-Loops {name} named (stuck {v = v} e n here l final leads h) =
      loop_of_state name e named here l λ x t.
        let u = (obj e.beh).on_end v in
        let way = Leads-next_state leads in
        let a : after name e v ≡ stop obj (at name) u =
          rw final (rw way (leave_for-stuck n name u h)) in
        last (rw a at t)
  Walk-Loops {name} named (moves {v = v} e d next here l final to_next named' there rest) =
      loop_of_state name e named here l λ x t.
        let u = (obj e.beh).on_end v in
        let way = Leads-next_state to_next in
        let a : after name e v ≡ (at next, (obj d.beh).on_start u) =
          rw final (rw way (rw named' (rw (there, enter)))) in
        more (rw a at t) (Walk-Loops named' rest)

  -- If the states of the machine, each run as a thread of its own and followed by the one of its
  -- transition for the exit value that it has before its `onEnd`, or without one of its default, lead from the first state to the state `to` and the world `u`, then the
  -- thread of the machine ends there and has finished. The first state is registered under a name
  -- that is not empty.
  pub Runs-fsm :
      {to : String} {w u : W} (e : StateEntry)
      → (s.first_state == "") ≡ false
      → lookup s.first_state s.states ≡ some e
      → Walk s.first_state ((obj e.beh).on_start w) to u
      → Runs (fsm_methods obj) (s, w) (record s { current_state = to; finished = true }, u)
  Runs-fsm {to} {w} {u} e named here walk = ran (rw begun (Walk-Loops named walk))
    where
      begun : on_start obj (s, w) ≡ (at s.first_state, (obj e.beh).on_start w)
      begun = unfold on_start in rw named (rw (here, start_state))

abbrev IsNameless : Fsm → Type 0
IsNameless s = (s.finished ≡ false) × ((s.current_state == "") ≡ true)

idle_turn :
    {W : Type 0} (obj : ℕ → Methods W) (x : Fsm × W)
    → IsNameless x.0
    → done obj (action obj x) ≡ (false, x)
unfolding action done
idle_turn obj x h = rw h.0 (rw h.1)

idle_loop :
    {W : Type 0} (obj : ℕ → Methods W) {x y : Fsm × W}
    → IsNameless x.0
    → ¬ Loops (fsm_methods obj) x y
idle_loop obj {x} {y} h (last e) = let idle = idle_turn obj x h in cc
idle_loop obj {x} {y} h (more {v = z} e l) =
    let idle = idle_turn obj x h in
    let same : z ≡ x = cc in idle_loop obj (subst (λ q. IsNameless q.0) (sym same) h) l

-- A machine without a first state never ends its thread, whatever states and transitions it has: no
-- sequence of turns from its start on comes to an end.
pub nameless_never_ends :
    {W : Type 0} (obj : ℕ → Methods W) (s : Fsm) {w : W} {y : Fsm × W}
    → (s.first_state == "") ≡ true
    → ¬ Runs (fsm_methods obj) (s, w) y
unfolding on_start
nameless_never_ends obj s nameless (ran l) = idle_loop obj (refl, nameless) l
