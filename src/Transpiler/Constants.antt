-- ===== src/Transpiler/Constants.antt =====
-- Constants and the folding of dotted names: `visit_Constant`, `_resolve_dotted_chain` and the first
-- half of `visit_Attribute` (transpiler/python_ast_visitor.py).
use fcpp_bridge.Prelude.{
  String, true, false, Option, none, some, [], ◌∷◌, ◌==◌, string_key, if◌then◌else◌,
}
use fcpp_bridge.Prelude.Dict.{Dict, lookup}
use fcpp_bridge.Transpiler.Syntax.{
  Expr, attribute, Constant, integer, floating, text, boolean, none_value, other_constant,
}
use fcpp_bridge.Transpiler.Text.{◌<>◌}

-- A Python object by its value and its attributes, which are what `isinstance` and `getattr` see.
mutual
  pub data Object : Type 0 where
    object : Constant → Attributes → Object

  pub data Attributes : Type 0 where
    no_attribute : Attributes
    has_attribute : String → Object → Attributes → Attributes

abbrev pub Namespace : Type 0
Namespace = Dict String Object

-- visit_Constant
unfoldable pub visit_constant : Constant → String
visit_constant (integer s) = s
visit_constant (floating s) = s
visit_constant (boolean true) = "True"
visit_constant (boolean false) = "False"
visit_constant (text s) = "\"" <> s <> "\""
visit_constant none_value = "nullptr"
visit_constant (other_constant s) = s

find_attribute : String → Attributes → Option Object
find_attribute a no_attribute = none
find_attribute a (has_attribute b o os) = if b == a then some o else find_attribute a os

-- getattr(obj, attr), `none` for the AttributeError
unfoldable pub get_attribute : String → Object → Option Object
unfolding find_attribute
get_attribute a (object v as_list) = find_attribute a as_list

abbrev pub chain_option : Option Object → (Object → Option Object) → Option Object
chain_option none f = none
chain_option (some o) f = f o

-- _resolve_dotted_chain: the root is looked up, then each attribute from left to right.
unfoldable pub resolve_dotted_chain : Namespace → Expr → Option Object
resolve_dotted_chain constants (attribute e a) =
    chain_option (resolve_dotted_chain constants e) (get_attribute a)
resolve_dotted_chain constants (Expr.name x) = lookup x constants
resolve_dotted_chain constants e = none

unfoldable pub literal : Option Object → Option String
literal (some (object (boolean true) os)) = some "1"
literal (some (object (boolean false) os)) = some "0"
literal (some (object (integer s) os)) = some s
literal (some (object (floating s) os)) = some s
literal o = none

-- What `visit_Attribute` emits without a visit of the node's value
unfoldable pub folded : Namespace → Expr → Option String
folded [] e = none
folded (c ∷ cs) e = literal (resolve_dotted_chain (c ∷ cs) e)
