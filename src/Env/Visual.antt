-- ===== src/Env/Visual.antt =====
-- `Environnement::make_agent` of src/env/Environnement.cpp, with VisualAgent of
-- include/gagent/env/VisualAgent.hpp: what is drawn for the agents.
pub mod Drawn
use mathlib.Core.Option
use g_agent.Base.{
  String, List, [], ◌∷◌, ◌++◌, Bool, true, false, not, Option, none, some, if◌then◌else◌, ◌==◌,
  string_key, Map, lookup, or_else, keep, map, IsDistinct, Fresh, Fresh-lookup, All, eq_iff,
  ==_refl, ◌≡◌, refl, sym, ap, ◌∙◌, arith, Bool-cases, inl, inr, subst,
}
use g_agent.Env.Attributs.{Attributs}
use g_agent.Env.Reports.{Reported}
use g_agent.Env.Json.{Floats, Links}

pub record VisualAgent (F : Type 0) : Type 0 where
  pub id : String
  pub name : String
  pub shape : String
  pub color : String
  pub pattern : String
  pub size : F
  pub size_x : F
  pub size_y : F
  pub size_z : F
  pub pos_x : F
  pub pos_y : F
  pub val : String
  pub vals : List String

-- The field that an attribute is for.
pub data Field : Type 0 where
  id_field name_field pos_x_field pos_y_field val_field shape_field color_field pattern_field
        size_field size_x_field size_y_field size_z_field other_field :
      Field

-- The chain of tests on the key behind the first.
unfoldable pub later_field : Links → String → Field
later_field l k =
    if k == l.name
    then name_field
    else if k == l.pos_x
    then pos_x_field
    else if k == l.pos_y
    then pos_y_field
    else if k == l.val
    then val_field
    else if k == l.shape
    then shape_field
    else if k == l.color
    then color_field
    else if k == l.pattern
    then pattern_field
    else if k == l.size
    then size_field
    else if k == l.size_x
    then size_x_field
    else if k == l.size_y
    then size_y_field
    else if k == l.size_z
    then size_z_field
    else other_field

unfoldable pub field_of : Links → String → Field
unfolding later_field
field_of l k = if k == l.id then id_field else later_field l k

module _ {F : Type 0} (floats : Floats F) where
  abbrev pub new_visual : VisualAgent F
  new_visual = record {
    id = "";
    name = "";
    shape = "";
    color = "";
    pattern = "";
    size = floats.one;
    size_x = floats.one;
    size_y = floats.one;
    size_z = floats.one;
    pos_x = floats.zero;
    pos_y = floats.zero;
    val = "";
    vals = [];
  }

  -- A text that is no number leaves the field.
  abbrev read_or : F → String → F
  read_or old text = or_else (floats.stof text) old

  unfoldable pub set_field : Field → String → VisualAgent F → VisualAgent F
  set_field id_field text v = record v { id = text }
  set_field name_field text v = record v { name = text }
  set_field pos_x_field text v = record v { pos_x = read_or v.pos_x text }
  set_field pos_y_field text v = record v { pos_y = read_or v.pos_y text }
  set_field val_field text v = record v { val = text }
  set_field shape_field text v = record v { shape = text }
  set_field color_field text v = record v { color = text }
  set_field pattern_field text v = record v { pattern = text }
  set_field size_field text v = record v { size = read_or v.size text }
  set_field size_x_field text v = record v { size_x = read_or v.size_x text }
  set_field size_y_field text v = record v { size_y = read_or v.size_y text }
  set_field size_z_field text v = record v { size_z = read_or v.size_z text }
  set_field other_field text v = record v { vals = v.vals ++ text ∷ [] }

  unfoldable pub set_visual : Links → String → String → VisualAgent F → VisualAgent F
  unfolding field_of set_field
  set_visual l k text v = set_field (field_of l k) text v

  unfoldable pub set_visuals : Links → Attributs → VisualAgent F → VisualAgent F
  set_visuals l [] v = v
  set_visuals l ((k, text) ∷ m) v = set_visuals l m (set_visual l k text v)

  abbrev pub with_shape : VisualAgent F → VisualAgent F
  with_shape v = if v.shape == "" then record v { shape = "circle" } else v

  abbrev pub with_size : VisualAgent F → VisualAgent F
  with_size v = if floats.is_zero v.size then record v { size = floats.five } else v

  abbrev pub kept_visual : VisualAgent F → List (VisualAgent F) → List (VisualAgent F)
  kept_visual v vs = if v.id == "" then vs else with_size (with_shape v) ∷ vs

  -- The visual agents that replace the old ones.
  unfoldable pub make_agent : Links → Reported → List (VisualAgent F)
  make_agent l [] = []
  make_agent l ((k, attrs) ∷ m) = kept_visual (set_visuals l attrs new_visual) (make_agent l m)
