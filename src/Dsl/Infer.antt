-- ===== src/Dsl/Infer.antt =====
-- `AggregateType.infer`, `_infer_bound_proxy` and `_infer_proxy_class`
-- (python_dsl/types/aggregate_type.py).
use fcpp_bridge.Prelude.{String, true, false, Option, none, some, List, [], ◌∷◌, ◌++◌}
use fcpp_bridge.Ipc.Exec.{Result, ok, err, type_error, value_error}
use fcpp_bridge.Transpiler.Text.{◌<>◌, join}
use fcpp_bridge.Dsl.CppTypes.{
  CppType, Fields, cpp_type, no_field, field, simple, type_name, required_includes,
  includes_or_empty, merge, none_if_empty, add_seen,
}
use fcpp_bridge.Dsl.Annotations.{
  Annotation, Annotations, Members, Proxy, Builtin, builtin, proxy_class, bound_proxy,
  template_param, type_var, generic, union, none_type, dataclass, annotated_class, named,
  int_literal, nameless, nil, cons, no_member, member_of, cpp_any, list_generic, tuple_generic,
  dict_generic, set_generic, frozenset_generic, cpp_template, proxy_std, proxy_header, Arity, arity,
}

infixl 5 ◌>>=◌
abbrev pub ◌>>=◌ {ℓ κ} : {A : Type ℓ} {B : Type κ} → Result A → (A → Result B) → Result B
ok a >>= f = f a
err e >>= f = err e

-- PYTHON_TO_CPP
unfoldable pub python_to_cpp : Builtin → CppType
python_to_cpp Builtin.float = simple "double" true none none
python_to_cpp Builtin.int = simple "int" true none none
python_to_cpp Builtin.bool = simple "bool" true none none
python_to_cpp Builtin.str = simple "std::string" true none (some ("<string>" ∷ []))
python_to_cpp Builtin.bytes =
    simple "std::vector<uint8_t>" false none (some ("<vector>" ∷ "<cstdint>" ∷ []))

-- ", ".join(e.name for e in elems)
type_names : List CppType → List String
type_names [] = []
type_names (t ∷ ts) = type_name t ∷ type_names ts

unfoldable pub includes_of : List CppType → List (Option (List String))
includes_of [] = []
includes_of (t ∷ ts) = required_includes t ∷ includes_of ts

-- A template over `ts` whose includes are its own header and those of `ts`
unfoldable pub template : String → Option String → String → List CppType → CppType
unfolding type_names includes_of
template name std header ts =
    simple (name <> "<" <> join ", " (type_names ts) <> ">") false std
      (merge (some (header ∷ []) ∷ includes_of ts))

-- A struct of the fields, whose includes are `all_inc` without repetition
unfoldable pub struct_type : String → Fields → List String → CppType
struct_type name fs all_inc =
    cpp_type name false true false fs none (none_if_empty (add_seen [] all_inc))

-- The type that `_infer_bound_proxy` makes of the types of all its arguments
unfoldable pub bound_type : Proxy → List CppType → CppType
bound_type p ts = template (cpp_template p) (proxy_std p) (proxy_header p) ts

unfoldable mutual
  -- AggregateType.infer
  pub infer : Annotation → Result CppType
  infer (bound_proxy p args) = infer_bound (arity p) p args
  infer (proxy_class cpp_any) = ok (simple "std::any" false (some "c++17") (some ("<any>" ∷ [])))
  infer (proxy_class p) = err type_error
  infer (template_param x) = ok (cpp_type x false false true no_field none none)
  infer (type_var x) = ok (cpp_type x false false true no_field none none)
  infer (builtin b) = ok (python_to_cpp b)
  infer (generic list_generic nil) =
      ok (simple "std::vector<double>" false none (some ("<vector>" ∷ [])))
  infer (generic list_generic (cons a as_list)) = do
    elem ← infer a
    ok (template "std::vector" none "<vector>" (elem ∷ []))
  infer (generic tuple_generic args) = do
    elems ← infer_all args
    ok (template "std::tuple" none "<tuple>" elems)
  infer (generic dict_generic (cons a (cons b as_list))) = do
    k ← infer a
    v ← infer b
    ok (template "std::map" none "<map>" (k ∷ v ∷ []))
  infer (generic dict_generic args) =
      ok (simple "std::map<std::string, double>" false none (some ("<map>" ∷ "<string>" ∷ [])))
  infer (generic set_generic nil) = ok (simple "std::set<double>" false none (some ("<set>" ∷ [])))
  infer (generic set_generic (cons a as_list)) = do
    elem ← infer a
    ok (template "std::set" none "<set>" (elem ∷ []))
  infer (generic frozenset_generic nil) =
      ok (simple "std::set<double>" false none (some ("<set>" ∷ [])))
  infer (generic frozenset_generic (cons a as_list)) = do
    elem ← infer a
    ok (template "std::set" none "<set>" (elem ∷ []))
  infer (union args) = infer_union args
  infer none_type = ok (simple "NoneType" false none none)
  infer (dataclass name ms) = do (fs, inc) ← infer_members ms; ok (struct_type name fs inc)
  infer (annotated_class name ms) = do (fs, inc) ← infer_members ms; ok (struct_type name fs inc)
  infer (named name) = ok (simple name false none none)
  infer (int_literal n) = err value_error
  infer nameless = err value_error

  -- The branch of unions: an optional, if they are two and one of them is None
  pub infer_union : Annotations → Result CppType
  infer_union (cons none_type (cons none_type nil)) = do
    a ← ok (simple "NoneType" false none none)
    ok (template "std::variant" (some "c++17") "<variant>" (a ∷ a ∷ []))
  infer_union (cons none_type (cons b nil)) = do
    inner ← infer b
    ok (template "std::optional" (some "c++17") "<optional>" (inner ∷ []))
  infer_union (cons a (cons none_type nil)) = do
    inner ← infer a
    ok (template "std::optional" (some "c++17") "<optional>" (inner ∷ []))
  infer_union nil = ok (template "std::variant" (some "c++17") "<variant>" [])
  infer_union (cons a as_list) = do
    t ← infer a
    ts ← infer_all as_list
    ok (template "std::variant" (some "c++17") "<variant>" (t ∷ ts))

  -- [AggregateType.infer(a) for a in args]
  pub infer_all : Annotations → Result (List CppType)
  infer_all nil = ok []
  infer_all (cons a as_list) = do t ← infer a; ts ← infer_all as_list; ok (t ∷ ts)

  -- The loops over the members of a class, with `fields_dict` and `all_inc`
  pub infer_members : Members → Result (Fields × List String)
  infer_members no_member = ok (no_field, [])
  infer_members (member_of x a ms) = do
    t ← infer a
    (fs, inc) ← infer_members ms
    ok (field x t fs, includes_or_empty (required_includes t) ++ inc)

  -- _infer_bound_proxy
  pub infer_bound : Arity → Proxy → Annotations → Result CppType
  infer_bound Arity.not_generic p args = err type_error
  infer_bound Arity.array p (cons a (cons (int_literal n) nil)) = do
    elem ← infer a
    ok (
        simple ("std::array<" <> type_name elem <> ", " <> n <> ">") false none
          (merge (some (proxy_header p ∷ []) ∷ required_includes elem ∷ [])))
  infer_bound Arity.array p (cons a (cons b nil)) = do elem ← infer a; err type_error
  infer_bound Arity.array p args = err type_error
  infer_bound Arity.variant p nil = err type_error
  infer_bound Arity.variant p (cons a nil) = err type_error
  infer_bound Arity.variant p (cons a (cons b as_list)) = do
    s ← infer a
    t ← infer b
    ts ← infer_all as_list
    ok (bound_type p (s ∷ t ∷ ts))
  infer_bound Arity.single p (cons a nil) = do elem ← infer a; ok (bound_type p (elem ∷ []))
  infer_bound Arity.single p args = err type_error
  infer_bound Arity.pair p (cons a (cons b nil)) = do
    s ← infer a
    t ← infer b
    ok (bound_type p (s ∷ t ∷ []))
  infer_bound Arity.pair p args = err type_error
