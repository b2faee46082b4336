-- ===== src/Core/Sequential.antt =====
-- `CompositeBehaviour` and `SequentialBehaviour` of Behaviour.cpp. The fields of the object stand
-- beside the world; `obj` gives the methods of the child behind a pointer.
pub mod Order
use g_agent.Base.{
  ℕ, zero, suc, List, [], ◌∷◌, ◌++◌, ◌≡◌, refl, Bool, true, false, Option, none, some,
  if◌then◌else◌, pos, leb, length, get_elem?, ◌==◌, nat_key, nat_beq,
}
use g_agent.Core.Behaviour.{Methods}

pub record Composite : Type 0 where
  pub this_agent : ℕ
  pub children : List ℕ

-- `b->this_agent = this_agent`, in a store of that field.
abbrev set_agent : (ℕ → ℕ) → ℕ → ℕ → ℕ → ℕ
set_agent owner b a p = if b == p then a else owner p

unfoldable pub add_sub_behaviour : ℕ → Composite × (ℕ → ℕ) → Composite × (ℕ → ℕ)
add_sub_behaviour b (c, owner) =
    (record c { children = c.children ++ b ∷ [] }, set_agent owner b c.this_agent)

-- `std::find` and `erase`: the first occurrence goes.
unfoldable pub remove_first : ℕ → List ℕ → List ℕ
remove_first b [] = []
remove_first b (p ∷ ps) = if p == b then ps else p ∷ remove_first b ps

unfoldable pub remove_sub_behaviour : ℕ → Composite → Composite
unfolding remove_first
remove_sub_behaviour b c = record c { children = remove_first b c.children }

pub record Sequential : Type 0 where
  pub composite : Composite
  pub open composite use *
  pub current : ℕ

module _ {W : Type 0} (obj : ℕ → Methods W) where
  -- `children_[i]->onStart()` if there is such a child
  abbrev pub start_child : Option ℕ → W → W
  start_child none w = w
  start_child (some c) w = (obj c).on_start w

  unfoldable pub on_start : Sequential × W → Sequential × W
  on_start (s, w) = (record s { current = 0 }, start_child (get_elem? s.children 0) w)

  -- What follows `cur->done()`.
  abbrev pub after_done : ℕ → Sequential → Bool × W → Sequential × W
  after_done c s (false, w) = (s, w)
  after_done c s (true, w) = (
    record s { current = suc s.current },
    start_child (get_elem? s.children (suc s.current)) ((obj c).on_end w),
  )

  abbrev pub act_on : Option ℕ → Sequential → W → Sequential × W
  act_on none s w = (s, w)
  act_on (some c) s w = after_done c s ((obj c).done ((obj c).action w))

  -- `current_ >= children_.size()` is that there is no child at `current_`.
  unfoldable pub action : Sequential × W → Sequential × W
  action (s, w) = act_on (get_elem? s.children s.current) s w

  unfoldable pub done : Sequential × W → Bool × (Sequential × W)
  done (s, w) = (leb (length s.children) s.current, (s, w))

  abbrev pub sequential_methods : Methods (Sequential × W)
  sequential_methods = record {
    on_start = on_start;
    action = action;
    done = done;
    on_end = λ x. x;
    exit_value = λ x. pos 0;
  }
