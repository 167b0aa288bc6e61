-- ===== src/Transpiler/Examples.antt =====
-- The translation of small methods, and of a class with them.
use fcpp_bridge.Transpiler.Program.{first_return}
use fcpp_bridge.Transpiler.Text.{before_first, cut, drop_prefix, rstrip_colon, starts_with}
use fcpp_bridge.Transpiler.Program.{generate_initial_state}
use fcpp_bridge.Transpiler.Expected.{named_trace, trace}
use fcpp_bridge.Transpiler.Expected.Statements.{assign_trace, optional_trace}
use fcpp_bridge.Transpiler.Program.{skip_docstring}
use fcpp_bridge.Transpiler.Text.{join, split_lines}
use fcpp_bridge.Prelude.Dict.{has}
use fcpp_bridge.Transpiler.Visitor.{declare, generic_visit, is_primitive, use_primitive}
use fcpp_bridge.Transpiler.Expressions.{is_tuple_hood, named_call, visit}
use fcpp_bridge.Transpiler.Statements.{bind_name, visit_assign, visit_return}
use fcpp_bridge.Prelude.{String, true, false, none, some, [], ◌∷◌, ◌≡◌, refl, string_key}
use fcpp_bridge.Prelude.Dict.{lookup}
use fcpp_bridge.Ipc.Exec.{ok, err, index_error}
use fcpp_bridge.Transpiler.Syntax
use fcpp_bridge.Transpiler.Syntax.{
  Expr, Stmts, call, constant, bin_op, set_expr, nil, cons, no_keyword, seq, done, assign,
  return_stmt, if_stmt, integer, add,
}
use fcpp_bridge.Transpiler.Visitor.{new_visitor, member, fcpp_primitives, utils_hpp}
use fcpp_bridge.Transpiler.Statements.{transpile_statements, visit_stmt, indented}
use fcpp_bridge.Transpiler.Effects.{outcome, replay}
use fcpp_bridge.Transpiler.Expected.Statements.{trace_stmts}
use fcpp_bridge.Transpiler.Reports.{IsDistinct, uses, transpile_statements-replay}
use fcpp_bridge.Transpiler.Builder.{CppCodeBuilder, add_includes, add_helper, set_main_aggregate}
use fcpp_bridge.Transpiler.Program.{
  Library, Transpiler, fill_builder, generate, generate_compute, transpile_method_body, finish_body,
  rename_all, primitive_headers, start_program, compute_helper, generate_main_aggregate,
}
use fcpp_bridge.Transpiler.Generated.{
  fill_builder-includes_primitive, fill_builder-IsDistinct, generate-returns,
}
use fcpp_bridge.Dsl.Validators.{missing}
use fcpp_bridge.Dsl.CppTypes.{simple}

-- x = min_hood(y); return {x}
abbrev sample : Stmts
sample =
    seq
      (assign (Syntax.name "x" ∷ [])
        (call (Syntax.name "min_hood") (cons (Syntax.name "y") nil) no_keyword))
      (seq (return_stmt (some (set_expr (cons (Syntax.name "x") nil)))) done)

-- x = len()
abbrev no_argument : Stmts
no_argument = seq (assign (Syntax.name "x" ∷ []) (call (Syntax.name "len") nil no_keyword)) done

abbrev no_dump : Expr → String
no_dump e = "node"

abbrev library : Library
library = record { dump = no_dump; sub_word = λ x y s. s; strip = λ s. s }

abbrev gradient : Transpiler
gradient = record {
  source = record {
    aggregate_class = record {
      class_name = "Gradient";
      is_aggregate_function = true;
      initial_state = missing;
      compute = missing;
      has_step = false;
      has_update = false;
    };
    globals = [];
    compute_body = ok sample;
    initial_source = ok "def initial_state(self) -> float:\n    return 0.0";
  };
  state_type = simple "double" true none none;
}

sample_text : transpile_statements [] no_dump sample new_visitor ≡ (
  ok "    auto x = min_hood(CALL, y);\n    return 0;",
  record {
    errors = "Unsupported AST node: Set" ∷ [];
    used_primitives = "min_hood" ∷ [];
    declared_vars = "x" ∷ [];
  },
)
unfolding transpile_statements visit_assign visit is_tuple_hood named_call is_primitive has
    fcpp_primitives bind_name member use_primitive visit_return generic_visit join declare indented
    split_lines
sample_text = refl

no_argument_raises : (transpile_statements [] no_dump no_argument new_visitor).0 ≡ err index_error
unfolding transpile_statements visit_assign visit is_tuple_hood named_call is_primitive has
    fcpp_primitives
no_argument_raises = refl

transpile_statements-replay_example :
    (outcome (transpile_statements [] no_dump sample new_visitor).0
      ≡ (trace_stmts [] no_dump sample).0)
    × ((transpile_statements [] no_dump sample new_visitor).1
        ≡ replay (trace_stmts [] no_dump sample).1 new_visitor)
transpile_statements-replay_example = transpile_statements-replay [] no_dump sample new_visitor

generate-returns_example : (program : String) × (generate library gradient ≡ ok program)
unfolding trace_stmts skip_docstring assign_trace trace is_tuple_hood named_trace is_primitive has
    fcpp_primitives optional_trace
generate-returns_example = generate-returns library gradient sample refl refl refl

abbrev gradient_program : CppCodeBuilder
gradient_program = set_main_aggregate (generate_main_aggregate gradient " 0.0") (
    add_helper (compute_helper "double" "    auto x = min_hood(CALL, y);\n    return 0;")
      (add_includes (utils_hpp ∷ []) (start_program (simple "double" true none none))))

gradient_fills : fill_builder library gradient ≡ ok gradient_program
unfolding fill_builder generate_compute transpile_method_body finish_body rename_all
    transpile_statements skip_docstring visit_stmt visit_assign visit is_tuple_hood named_call
    is_primitive has fcpp_primitives bind_name member use_primitive visit_return generic_visit join
    declare indented split_lines primitive_headers lookup generate_initial_state cut starts_with
    rstrip_colon before_first drop_prefix first_return
gradient_fills = refl

fill_builder-includes_primitive_example : member utils_hpp gradient_program.includes ≡ true
unfolding uses trace_stmts skip_docstring assign_trace trace is_tuple_hood named_trace is_primitive
    has fcpp_primitives lookup
fill_builder-includes_primitive_example =
    fill_builder-includes_primitive library gradient sample refl "min_hood" utils_hpp refl refl
      gradient_fills

fill_builder-IsDistinct_example : IsDistinct gradient_program.includes
fill_builder-IsDistinct_example = fill_builder-IsDistinct library gradient gradient_fills
