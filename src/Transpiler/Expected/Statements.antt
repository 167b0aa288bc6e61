-- ===== src/Transpiler/Expected/Statements.antt =====
-- The trace of statements, by recursion on the tree alone.
use fcpp_bridge.Prelude.{String, Option, none, some, List, [], ◌∷◌}
use fcpp_bridge.Ipc.Exec.{index_error}
use fcpp_bridge.Transpiler.Syntax.{
  Expr, Exprs, Pattern, Patterns, Stmt, Stmts, Cases, nil, cons, match_value, match_or, match_as,
  no_pattern, alternative, expr_stmt, return_stmt, assign, ann_assign, aug_assign, if_stmt,
  while_stmt, for_stmt, match_stmt, pass_stmt, break_stmt, continue_stmt, other_stmt, done, seq,
  no_case, case,
}
use fcpp_bridge.Transpiler.Text.{◌<>◌}
use fcpp_bridge.Transpiler.Constants.{Namespace}
use fcpp_bridge.Transpiler.Effects.{Trace, problem, declared, silent, event, raising, ◌then_do◌}
use fcpp_bridge.Transpiler.Statements.{range_args, pattern_name}
use fcpp_bridge.Transpiler.Expected.{trace}

module _ (constants : Namespace) (dump : Expr → String) where
  unfoldable pub optional_trace : Option Expr → Trace
  optional_trace none = silent
  optional_trace (some e) = trace constants e

  unfoldable pub assign_trace : List Expr → Expr → Trace
  assign_trace (Expr.name x ∷ []) e = trace constants e then_do event (declared x)
  assign_trace [] e = raising index_error
  assign_trace (t ∷ ts) e = event (problem ("Unsupported assignment target: " <> dump t))

  unfoldable pub ann_assign_trace : Expr → Option Expr → Trace
  ann_assign_trace t none = silent
  ann_assign_trace (Expr.name x) (some e) = trace constants e then_do event (declared x)
  ann_assign_trace t (some e) = event (problem "Unsupported annotated assignment target")

  -- The arguments of `range`, and then the body, which a loop that is refused does not reach
  unfoldable pub loop_trace : Option Exprs → Trace → Trace
  loop_trace none body =
      event (problem "Only range()-based for loops are supported by the transpiler")
  loop_trace (some (cons e nil)) body = trace constants e then_do body
  loop_trace (some (cons s (cons e nil))) body =
      (trace constants s then_do trace constants e) then_do body
  loop_trace (some (cons s (cons e (cons d nil)))) body =
      (trace constants s then_do trace constants e then_do trace constants d) then_do body
  loop_trace (some es) body = event (problem "range() requires 1-3 arguments")

  unfoldable pub labels_trace : Patterns → Trace
  labels_trace no_pattern = silent
  labels_trace (alternative (match_value e) ps) = trace constants e then_do labels_trace ps
  labels_trace (alternative p ps) =
      event (problem ("Unsupported OR sub-pattern: " <> pattern_name p)) then_do labels_trace ps

  unfoldable pub pattern_trace : Pattern → Trace
  pattern_trace (match_as no_pattern none) = silent
  pattern_trace (match_value e) = trace constants e
  pattern_trace (match_or ps) = labels_trace ps
  pattern_trace p = event (problem ("Unsupported match pattern: " <> pattern_name p))

  unfoldable mutual
    pub trace_stmt : Stmt → Trace
    trace_stmt (expr_stmt e) = trace constants e
    trace_stmt (return_stmt e) = optional_trace e
    trace_stmt (assign ts e) = assign_trace ts e
    trace_stmt (ann_assign t e) = ann_assign_trace t e
    trace_stmt (aug_assign t o e) = trace constants t then_do trace constants e
    trace_stmt (if_stmt t b o) = trace constants t then_do trace_stmts b then_do trace_stmts o
    trace_stmt (while_stmt t b o) = trace constants t then_do trace_stmts b
    trace_stmt (for_stmt target iter b o) = loop_trace (range_args iter) (trace_stmts b)
    trace_stmt (match_stmt e cs) = trace constants e then_do trace_cases cs
    trace_stmt pass_stmt = silent
    trace_stmt break_stmt = silent
    trace_stmt continue_stmt = silent
    trace_stmt (other_stmt c) = event (problem ("Unsupported AST node: " <> c))

    pub trace_stmts : Stmts → Trace
    trace_stmts done = silent
    trace_stmts (seq s r) = trace_stmt s then_do trace_stmts r

    pub trace_cases : Cases → Trace
    trace_cases no_case = silent
    trace_cases (case p g b cs) =
        trace_stmts b then_do optional_trace g then_do pattern_trace p then_do trace_cases cs
