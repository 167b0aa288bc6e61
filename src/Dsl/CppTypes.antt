-- ===== src/Dsl/CppTypes.antt =====
-- `CppType` (python_dsl/types/cpp_type.py) and `_merge` (python_dsl/types/aggregate_type.py).
-- `required_includes` is `none` for Python's None; a field's type matters by its name alone to the
-- declaration that is made of it.
use fcpp_bridge.Prelude.{
  String, Bool, true, false, Option, none, some, List, [], ◌∷◌, ◌++◌, ◌||◌, not, string_key,
  if◌then◌else◌,
}
use fcpp_bridge.Transpiler.Text.{◌<>◌, join}
use fcpp_bridge.Transpiler.Visitor.{member}

mutual
  pub data CppType : Type 0 where
    -- name, is_primitive, is_struct, is_template, fields, cpp_std, required_includes
    cpp_type : String → Bool → Bool → Bool → Fields → Option String → Option (List String) → CppType

  pub data Fields : Type 0 where
    no_field : Fields
    field : String → CppType → Fields → Fields

abbrev pub type_name : CppType → String
type_name (cpp_type n p s t f d r) = n

abbrev pub is_struct : CppType → Bool
is_struct (cpp_type n p s t f d r) = s

abbrev pub type_fields : CppType → Fields
type_fields (cpp_type n p s t f d r) = f

abbrev pub cpp_std : CppType → Option String
cpp_std (cpp_type n p s t f d r) = d

abbrev pub required_includes : CppType → Option (List String)
required_includes (cpp_type n p s t f d r) = r

-- CppType(name, is_primitive=…, cpp_std=…, required_includes=…)
abbrev pub simple : String → Bool → Option String → Option (List String) → CppType
simple n p d r = cpp_type n p false false no_field d r

-- required_includes or []
abbrev pub includes_or_empty : Option (List String) → List String
includes_or_empty none = []
includes_or_empty (some r) = r

-- seen[inc] = None, and list(dict.fromkeys(…)): the first of each, in order
unfoldable pub add_seen : List String → List String → List String
add_seen seen [] = seen
add_seen seen (i ∷ is_list) = add_seen (if member i seen then seen else seen ++ i ∷ []) is_list

abbrev pub none_if_empty : List String → Option (List String)
none_if_empty [] = none
none_if_empty (i ∷ is_list) = some (i ∷ is_list)

unfoldable pub merge_into : List String → List (Option (List String)) → List String
merge_into seen [] = seen
merge_into seen (r ∷ rs) = merge_into (add_seen seen (includes_or_empty r)) rs

-- _merge
unfoldable pub merge : List (Option (List String)) → Option (List String)
unfolding merge_into
merge rs = none_if_empty (merge_into [] rs)

field_lines : Fields → List String
field_lines no_field = []
field_lines (field x t fs) = ("    " <> type_name t <> " " <> x <> ";") ∷ field_lines fs

abbrev pub has_fields : Fields → Bool
has_fields no_field = false
has_fields (field x t fs) = true

-- CppType.cpp_declaration
unfoldable pub cpp_declaration : CppType → String
unfolding field_lines
cpp_declaration t =
    if not (is_struct t) || not (has_fields (type_fields t))
    then ""
    else join "\n" (("struct " <> type_name t <> " {") ∷ (field_lines (type_fields t) ++ "};" ∷ []))

-- AggregateType.is_numeric
unfoldable pub is_numeric : CppType → Bool
is_numeric t = member (type_name t) (
    "int" ∷ "double" ∷ "float" ∷ "long" ∷ "short" ∷ "uint8_t" ∷ "int8_t" ∷ "uint16_t" ∷ "int16_t"
    ∷ "uint32_t" ∷ "int32_t" ∷ "uint64_t" ∷ "int64_t" ∷ [])
