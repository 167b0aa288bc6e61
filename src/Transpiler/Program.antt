-- ===== src/Transpiler/Program.antt =====
-- `Transpiler` (transpiler/transpiler_core.py). What the code asks of Python's own library is a
-- parameter: `ast.dump`, the whole-word replacement by `re.sub`, and `str.strip`. A method's source
-- and its parsed body, from `inspect` and `ast.parse`, are fields of the class that is translated.
use fcpp_bridge.Prelude.{
  String, Bool, true, false, none, some, List, [], ◌∷◌, ◌&&◌, if◌then◌else◌, string_key,
}
use fcpp_bridge.Prelude.Dict.{lookup}
use fcpp_bridge.Ipc.Exec.{Exc, Result, ok, err, syntax_error, index_error, is_os_error}
use fcpp_bridge.Transpiler.Syntax.{Expr, Stmts, constant, text, expr_stmt, seq}
use fcpp_bridge.Transpiler.Text.{◌<>◌, split_lines, cut, before_first, rstrip_colon}
use fcpp_bridge.Transpiler.Constants.{Namespace}
use fcpp_bridge.Transpiler.Visitor.{Visitor, new_visitor, fcpp_primitives}
use fcpp_bridge.Transpiler.Statements.{transpile_statements}
use fcpp_bridge.Transpiler.Builder.{
  CppCodeBuilder, new_builder, add_include, add_includes, add_declaration, add_helper,
  set_main_aggregate, build,
}
use fcpp_bridge.Dsl.CppTypes.{
  CppType, type_name, is_struct, type_fields, has_fields, required_includes, includes_or_empty,
  cpp_declaration,
}
use fcpp_bridge.Dsl.Infer.{◌>>=◌, infer}
use fcpp_bridge.Dsl.Validators.{AggregateClass, validate, get_state_type}

pub record Source : Type 0 where
  pub aggregate_class : AggregateClass
  -- compute.__globals__
  pub globals : Namespace
  -- The body of `compute`, by inspect.getsource, ast.parse and `tree.body[0]`, which may raise
  pub compute_body : Result Stmts
  -- inspect.getsource(initial_state), which may raise an OSError or a TypeError
  pub initial_source : Result String

pub record Library : Type 0 where
  -- ast.dump(node)
  pub dump : Expr → String
  -- re.sub(rf'\b{re.escape(name)}\b', replacement, text)
  pub sub_word : String → String → String → String
  -- text.strip()
  pub strip : String → String

pub record Transpiler : Type 0 where
  pub source : Source
  pub state_type : CppType

-- Transpiler.__init__ and _validate; the warnings only go to the log.
unfoldable pub new_transpiler : Source → Result Transpiler
new_transpiler s = do
  warnings ← validate s.aggregate_class
  annotation ← get_state_type s.aggregate_class
  t ← infer annotation
  ok (record { source = s; state_type = t })

-- Skip a leading docstring.
unfoldable pub skip_docstring : Stmts → Stmts
skip_docstring (seq (expr_stmt (constant (text s))) r) = r
skip_docstring stmts = stmts

abbrev pub param_remap : List (String × String)
param_remap =
    ("self_state", "self_state")
    ∷ ("state", "self_state")
    ∷ ("s", "self_state")
    ∷ ("neighbors", "neighbor_states")
    ∷ ("nbrs", "neighbor_states")
    ∷ ("neighborhood", "neighbor_states")
    ∷ []

abbrev pub fallback_body : String
fallback_body = "    return self_state;"

abbrev pub is_empty : String → Bool
is_empty String.[] = true
is_empty (String.◌∷◌ c s) = false

-- The headers of the used primitives, in order
unfoldable pub primitive_headers : List String → List String
primitive_headers [] = []
primitive_headers (p ∷ ps) = elim (lookup p fcpp_primitives) [
  | none ↦ primitive_headers ps
  | some h ↦ h ∷ primitive_headers ps
]

-- The part of `generate` before the compute helper
abbrev pub start_program : CppType → CppCodeBuilder
start_program t =
    let b =
      add_includes (includes_or_empty (required_includes t))
        (add_include "<fcpp/fcpp.hpp>" new_builder) in
    if is_struct t && has_fields (type_fields t) then add_declaration (cpp_declaration t) b else b

abbrev pub compute_helper : String → String → String
compute_helper state_type_name cpp_body =
    "\n// Generated compute helper (transpiled from Python)\n" <> state_type_name
    <> " compute_next_state(\n    const " <> state_type_name
    <> "& self_state,\n    const std::vector<" <> state_type_name <> ">& neighbor_states) {\n"
    <> cpp_body <> "\n}\n"

-- _generate_main_aggregate
unfoldable pub generate_main_aggregate : Transpiler → String → String
generate_main_aggregate t initial_expr =
    let state_type_name = type_name t.state_type in
    let class_name = t.source.aggregate_class.class_name in
    "\n" <> "// Generated FCPP aggregate program — " <> class_name <> "\n"
    <> "namespace fcpp_generated {\n" <> "\n" <> "AGGREGATE_TEMPLATE(main) : void {\n"
    <> "    using state_t = " <> state_type_name <> ";\n" <> "\n"
    <> "    // Initialize or retrieve persistent state\n"
    <> "    auto& current_state = old(CALL, static_cast<state_t>(" <> initial_expr <> "));\n"
    <> "\n" <> "    // Collect neighbor states via nbr\n"
    <> "    auto nbr_states = nbr(CALL, current_state);\n" <> "\n"
    <> "    // Flatten field to vector for compute helper\n"
    <> "    std::vector<state_t> neighbor_vec;\n"
    <> "    fold_hood(CALL, [&](state_t v, fcpp::unit) {\n"
    <> "        neighbor_vec.push_back(v);\n" <> "        return fcpp::unit{};\n"
    <> "    }, fcpp::unit{}, nbr_states);\n" <> "\n"
    <> "    // Compute next state from transpiled Python logic\n"
    <> "    current_state = compute_next_state(current_state, neighbor_vec);\n" <> "}\n" <> "\n"
    <> "}  // namespace fcpp_generated\n" <> "\n"
    <> "// Entry point — spawns IPC server then runs simulation\n"
    <> "int main(int argc, char* argv[]) {\n"
    <> "    int num_nodes = (argc > 1) ? std::atoi(argv[1]) : 100;\n"
    <> "    int ipc_port  = (argc > 2) ? std::atoi(argv[2]) : 8765;\n" <> "\n"
    <> "    // TODO: initialise FCPPSimulator with num_nodes and ipc_port\n" <> "    return 0;\n"
    <> "}\n"

module _ (l : Library) where
  unfoldable pub rename_all : List (String × String) → String → String
  rename_all [] s = s
  rename_all ((x, y) ∷ r) s = rename_all r (l.sub_word x y s)

  unfoldable pub finish_body : Result String × Visitor → Result (String × List String)
  unfolding rename_all
  finish_body (err e, v) = err e
  finish_body (ok body, v) =
      let renamed = rename_all param_remap body in
      ok ((if is_empty (l.strip renamed) then fallback_body else renamed), v.used_primitives)

  -- except (OSError, SyntaxError, IndexError)
  unfoldable pub without_body : Exc → Result (String × List String)
  without_body syntax_error = ok (fallback_body, [])
  without_body index_error = ok (fallback_body, [])
  without_body e = if is_os_error e then ok (fallback_body, []) else err e

  -- _transpile_method_body
  unfoldable pub transpile_method_body : Source → Result (String × List String)
  unfolding finish_body without_body
  transpile_method_body s = elim s.compute_body [
    | err e ↦ without_body e
    | ok stmts ↦
        finish_body (transpile_statements s.globals l.dump (skip_docstring stmts) new_visitor)
  ]

  -- _generate_compute
  unfoldable pub generate_compute : Transpiler → Result (String × List String)
  generate_compute t = do
    (cpp_body, used_prims) ← transpile_method_body t.source
    ok (compute_helper (type_name t.state_type) cpp_body, used_prims)

  unfoldable pub first_return : List String → String
  first_return [] = "0"
  first_return (line ∷ lines) = elim (cut "return" line) [
    | none ↦ first_return lines
    | some (before, after) ↦ rstrip_colon (l.strip (before_first "return" after))
  ]

  -- _generate_initial_state
  unfoldable pub generate_initial_state : Source → Result String
  unfolding first_return
  generate_initial_state s = do source ← s.initial_source; ok (first_return (split_lines source))

  -- The builder that `generate` fills
  unfoldable pub fill_builder : Transpiler → Result CppCodeBuilder
  fill_builder t = do
    (compute_code, used_prims) ← generate_compute t
    let b =
        add_helper compute_code
          (add_includes (primitive_headers used_prims) (start_program t.state_type))
    initial_code ← generate_initial_state t.source
    ok (set_main_aggregate (generate_main_aggregate t initial_code) b)

  -- Transpiler.generate
  unfoldable pub generate : Transpiler → Result String
  generate t = do b ← fill_builder t; ok (build b)
