-- ===== src/Env/Nsap.antt =====
-- The stack of snapshots of src/env/Environnement.cpp: `push_nsap`, `pull_nsap` and `clear_nsap`. `X` is
-- the type of `list_attr`, the attributes of all agents. The mutex makes each operation one step.
pub mod Stack
use g_agent.Base.{
  ℕ, suc, ◌+◌, String, List, [], ◌∷◌, Option, none, some, Map, insert, erase, nat_key, length, ℤ,
  pos, negsuc,
}

pub record Environnement (X : Type 0) : Type 0 where
  pub list_attr : X
  pub list_snaps : Map ℕ X
  pub nsap_index : Map ℕ String
  pub nsap_seq : ℕ

-- `std::prev(m.end())`, where there is one.
abbrev pub last_entry : {X : Type 0} → Map ℕ X → Option (ℕ × X)
last_entry [] = none
last_entry (e ∷ []) = some e
last_entry (e ∷ f ∷ m) = last_entry (f ∷ m)

module _ {X : Type 0} where
  -- `now` is the text of the current time.
  unfoldable pub push_nsap : String → Environnement X → ℤ × Environnement X
  push_nsap now e = (
    pos (suc e.nsap_seq),
    record e {
      list_snaps = insert e.nsap_seq e.list_attr e.list_snaps;
      nsap_index = insert e.nsap_seq now e.nsap_index;
      nsap_seq = suc e.nsap_seq;
    },
  )

  unfoldable pub restore : Option (ℕ × X) → Environnement X → ℤ × Environnement X
  restore none e = (negsuc 0, e)
  restore (some (seq, x)) e = (
    pos (length (erase seq e.list_snaps)),
    record e {
      list_attr = x;
      list_snaps = erase seq e.list_snaps;
      nsap_index = erase seq e.nsap_index;
    },
  )

  unfoldable pub pull_nsap : Environnement X → ℤ × Environnement X
  pull_nsap e = restore (last_entry e.list_snaps) e

  unfoldable pub clear_nsap : Environnement X → Environnement X
  clear_nsap e = record e { list_snaps = []; nsap_index = []; nsap_seq = 0 }
