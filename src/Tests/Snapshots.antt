-- ===== src/Tests/Snapshots.antt =====
-- Concrete environments: one whose attributes are a number, and the attributes of an agent.
use g_agent.Env.Attributs.{Attributs, attributs_text}
use mathlib.Core.Option
use Prim.Native.String.{◌++◌}
use g_agent.Base.{
  if◌then◌else◌, leb, lookup, string_key, nat_key, String, false, some, none, if◌then◌else◌, ◌==◌,
  not, map, keep, All, ℕ, List, [], ◌∷◌, ◌≡◌, refl,
}
use g_agent.Env.Nsap.{Environnement}
use g_agent.Env.Reports.{Reported, bytes, attribut_updated, read_queue, read_queue-attribut_updated}
use g_agent.Env.Json.{Floats, Links, env_json_escape}
use g_agent.Env.Json.Escaping.{read_json, read_json-env_json_escape}
use g_agent.Env.Visual.{make_agent}
use g_agent.Env.Visual.Drawn.{ids_of, IsDrawn, make_agent_lem}
use g_agent.Env.Nsap.Stack.{
  Call, pushes, pulls, clears, becomes, holds_none, run_nsap, run_stack, run_nsap-run_stack,
}

abbrev fresh : Environnement ℕ
fresh = record { list_attr = 5; list_snaps = []; nsap_index = []; nsap_seq = 0 }

abbrev edits : List (Call ℕ)
edits = pushes "t1" ∷ becomes 6 ∷ pushes "t2" ∷ becomes 7 ∷ pulls ∷ pulls ∷ pulls ∷ clears ∷ []

run_nsap-run_stack_example : run_nsap edits fresh ≡ run_stack edits (5, [])
run_nsap-run_stack_example = run_nsap-run_stack edits [] fresh (holds_none refl)

abbrev colours : Attributs
colours = ("color", "red") ∷ ("pos_x", "1:2") ∷ []

-- The message of these attributes.
colours_text : attributs_text colours ≡ "color:red;pos_x:1:2;"
unfolding attributs_text
colours_text = refl

abbrev robot : Attributs
robot = ("color", "red") ∷ ("id", "r2") ∷ ("pos_x", "1:2") ∷ []

abbrev cat : Attributs
cat = ("id", "c1") ∷ []

abbrev with_cat : Environnement Reported
with_cat = record { list_attr = ("c1", cat) ∷ []; list_snaps = []; nsap_index = []; nsap_seq = 0 }

read_queue-attribut_updated_example :
    let before = read_queue "id" ("id:cat;x:9;" ∷ []) with_cat in
    let after = read_queue "id" (attribut_updated robot ("id:cat;x:9;" ∷ [])) with_cat in
    ((k : String)
      → Option.bind (lookup "r2" after.list_attr) (λ a. lookup k a) ≡ (
          if leb (bytes (attributs_text robot)) 1000
          then lookup k robot
          else Option.bind (lookup "r2" before.list_attr) (λ a. lookup k a)))
    × ((j : String) → ("r2" == j) ≡ false → lookup j after.list_attr ≡ lookup j before.list_attr)
    × (after.list_snaps ≡ before.list_snaps)
    × (after.nsap_index ≡ before.nsap_index)
read_queue-attribut_updated_example =
    read_queue-attribut_updated "id" "r2" robot ("id:cat;x:9;" ∷ []) with_cat
      ((refl, refl, refl), ((refl, refl, refl), ((refl, refl, refl), tt)))
      ((refl, (refl, tt)), ((refl, tt), (tt, tt))) (unfold lookup in refl)

-- Floats that only tell zero from the others.
abbrev rough : Floats ℕ
rough = record {
  stof = λ s. if s == "0" then some 0 else none;
  shown = λ n. "1";
  is_zero = λ n. n == 0;
  zero = 0;
  one = 1;
  five = 5;
}

abbrev links : Links
links = record {
  id = "id";
  name = "name";
  pos_x = "pos_x";
  pos_y = "pos_y";
  val = "val";
  shape = "shape";
  color = "color";
  pattern = "pattern";
  size = "size";
  size_x = "size_x";
  size_y = "size_y";
  size_z = "size_z";
}

abbrev two_reports : Reported
two_reports = ("c1", cat) ∷ ("x", ("size", "0") ∷ []) ∷ ("r2", robot) ∷ []

make_agent_lem_example :
    (map (λ v. v.id) (make_agent rough links two_reports)
      ≡ keep (λ i. not (i == "")) (ids_of rough links two_reports))
    × All (IsDrawn rough) (make_agent rough links two_reports)
make_agent_lem_example =
    make_agent_lem rough links two_reports
      ((tt, tt), ((tt, tt), (((refl, (refl, tt)), ((refl, tt), (tt, tt))), tt))) refl

read_json-env_json_escape_example :
    read_json false (env_json_escape "a \"b\"\n" ++ ("\"" ++ ",\"name\":"))
    ≡ some ("a \"b\"\n", ",\"name\":")
read_json-env_json_escape_example = read_json-env_json_escape "a \"b\"\n" ",\"name\":"
