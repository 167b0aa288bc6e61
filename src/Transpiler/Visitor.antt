-- ===== src/Transpiler/Visitor.antt =====
-- The state of `PythonAstVisitor` (transpiler/python_ast_visitor.py) and its updates, with the table
-- of primitives of transpiler/_constants.py. The field `variables`, which no method reads or writes,
-- is left out; the namespace `constants` is never written and is a parameter.
use fcpp_bridge.Prelude.{
  String, Bool, true, false, List, [], ◌∷◌, ◌++◌, ◌==◌, string_key, if◌then◌else◌,
}
use fcpp_bridge.Prelude.Dict.{Dict, has}
use fcpp_bridge.Ipc.Exec.{Exec, modify, pure, ◌>>◌}
use fcpp_bridge.Transpiler.Text.{◌<>◌}

pub record Visitor : Type 0 where
  pub errors : List String
  pub used_primitives : List String
  pub declared_vars : List String

-- PythonAstVisitor.__init__
abbrev pub new_visitor : Visitor
new_visitor = record { errors = []; used_primitives = []; declared_vars = [] }

abbrev pub M : Type 0 → Type 0
M A = Exec Visitor A

-- s in xs
unfoldable pub member : String → List String → Bool
member s [] = false
member s (x ∷ xs) = if x == s then true else member s xs

-- _FCPP_PRIMITIVES
abbrev pub basics_hpp : String
basics_hpp = "<lib/coordination/basics.hpp>"

abbrev pub utils_hpp : String
utils_hpp = "<lib/coordination/utils.hpp>"

abbrev pub spreading_hpp : String
spreading_hpp = "<lib/coordination/spreading.hpp>"

abbrev pub collection_hpp : String
collection_hpp = "<lib/coordination/collection.hpp>"

abbrev pub geometry_hpp : String
geometry_hpp = "<lib/coordination/geometry.hpp>"

abbrev pub election_hpp : String
election_hpp = "<lib/coordination/election.hpp>"

abbrev pub time_hpp : String
time_hpp = "<lib/coordination/time.hpp>"

unfoldable pub fcpp_primitives : Dict String String
fcpp_primitives =
    ("nbr", basics_hpp)
    ∷ ("old", basics_hpp)
    ∷ ("nbr_uid", basics_hpp)
    ∷ ("oldnbr", basics_hpp)
    ∷ ("align", basics_hpp)
    ∷ ("align_inplace", basics_hpp)
    ∷ ("mod_other", basics_hpp)
    ∷ ("fold_hood", basics_hpp)
    ∷ ("count_hood", basics_hpp)
    ∷ ("spawn", basics_hpp)
    ∷ ("split", basics_hpp)
    ∷ ("min_hood", utils_hpp)
    ∷ ("max_hood", utils_hpp)
    ∷ ("sum_hood", utils_hpp)
    ∷ ("mean_hood", utils_hpp)
    ∷ ("all_hood", utils_hpp)
    ∷ ("any_hood", utils_hpp)
    ∷ ("list_hood", utils_hpp)
    ∷ ("broadcast", spreading_hpp)
    ∷ ("abf_distance", spreading_hpp)
    ∷ ("abf_hops", spreading_hpp)
    ∷ ("bis_distance", spreading_hpp)
    ∷ ("flex_distance", spreading_hpp)
    ∷ ("bis_ksource_broadcast", spreading_hpp)
    ∷ ("gossip", collection_hpp)
    ∷ ("gossip_min", collection_hpp)
    ∷ ("gossip_max", collection_hpp)
    ∷ ("gossip_mean", collection_hpp)
    ∷ ("sp_collection", collection_hpp)
    ∷ ("mp_collection", collection_hpp)
    ∷ ("wmp_collection", collection_hpp)
    ∷ ("list_idem_collection", collection_hpp)
    ∷ ("list_arith_collection", collection_hpp)
    ∷ ("follow_target", geometry_hpp)
    ∷ ("follow_path", geometry_hpp)
    ∷ ("follow_track", geometry_hpp)
    ∷ ("rectangle_walk", geometry_hpp)
    ∷ ("random_rectangle_target", geometry_hpp)
    ∷ ("neighbour_elastic_force", geometry_hpp)
    ∷ ("neighbour_gravitational_force", geometry_hpp)
    ∷ ("neighbour_charged_force", geometry_hpp)
    ∷ ("line_elastic_force", geometry_hpp)
    ∷ ("plane_elastic_force", geometry_hpp)
    ∷ ("point_elastic_force", geometry_hpp)
    ∷ ("point_gravitational_force", geometry_hpp)
    ∷ ("diameter_election", election_hpp)
    ∷ ("diameter_election_distance", election_hpp)
    ∷ ("color_election", election_hpp)
    ∷ ("color_election_distance", election_hpp)
    ∷ ("wave_election", election_hpp)
    ∷ ("wave_election_distance", election_hpp)
    ∷ ("constant", time_hpp)
    ∷ ("constant_after", time_hpp)
    ∷ ("counter", time_hpp)
    ∷ ("delay", time_hpp)
    ∷ ("round_since", time_hpp)
    ∷ ("time_since", time_hpp)
    ∷ ("timed_decay", time_hpp)
    ∷ ("exponential_filter", time_hpp)
    ∷ ("shared_clock", time_hpp)
    ∷ ("shared_decay", time_hpp)
    ∷ ("shared_filter", time_hpp)
    ∷ ("toggle", time_hpp)
    ∷ ("toggle_filter", time_hpp)
    ∷ []

-- name in _FCPP_PRIMITIVES
unfoldable pub is_primitive : String → Bool
is_primitive f = has f fcpp_primitives

-- self.errors.append(message)
abbrev pub add_error : String → Visitor → Visitor
add_error e v = record v { errors = v.errors ++ e ∷ [] }

-- if name not in self.used_primitives: self.used_primitives.append(name)
unfoldable pub use_primitive : String → Visitor → Visitor
use_primitive f v =
    if member f v.used_primitives
    then v
    else record v { used_primitives = v.used_primitives ++ f ∷ [] }

-- self.declared_vars.add(name)
unfoldable pub declare : String → Visitor → Visitor
declare x v =
    if member x v.declared_vars then v else record v { declared_vars = v.declared_vars ++ x ∷ [] }

abbrev pub report : String → M (Unit {0})
report e = modify (add_error e)

-- generic_visit
unfoldable pub generic_visit : String → M String
generic_visit class_name = do report ("Unsupported AST node: " <> class_name); pure "0"
