-- ===== src/Transpiler/Replay/Statements.antt =====
-- The visitor of statements against the traces.
use fcpp_bridge.Prelude.{String, Option, none, some, List, [], ◌∷◌, refl, arith}
use fcpp_bridge.Ipc.Exec.{index_error, pure, ◌>>◌}
use fcpp_bridge.Transpiler.Syntax
use fcpp_bridge.Transpiler.Syntax.{
  Expr, Exprs, Operator, Pattern, Patterns, Stmt, Stmts, Cases, bin_op, compare, call, constant,
  attribute, subscript, lambda, if_exp, bool_op, unary_op, list_expr, tuple, set_expr, other_expr,
  nil, cons, match_value, match_or, match_as, other_pattern, no_pattern, alternative, expr_stmt,
  return_stmt, assign, ann_assign, aug_assign, if_stmt, while_stmt, for_stmt, match_stmt, pass_stmt,
  break_stmt, continue_stmt, other_stmt, done, seq, no_case, case,
}
use fcpp_bridge.Transpiler.Text.{◌<>◌}
use fcpp_bridge.Transpiler.Constants.{Namespace}
use fcpp_bridge.Transpiler.Visitor.{M, declare, report}
use fcpp_bridge.Transpiler.Expressions.{visit}
use fcpp_bridge.Transpiler.Statements.{
  bind_name, range_args, pattern_name, visit_return, visit_assign, visit_ann_assign,
  visit_aug_assign, range_header, for_header, guarded, visit_labels, visit_pattern, visit_stmt,
  visit_orelse, visit_lines, visit_cases, loop_variable,
}
use fcpp_bridge.Transpiler.Effects.{
  Follows, Follows-bind, Follows-map, Follows-pure, Follows-raise, Trace, replay, apply, problem,
  declared, event, ◌then_do◌,
}
use fcpp_bridge.Transpiler.Expected.Statements.{
  optional_trace, assign_trace, ann_assign_trace, loop_trace, labels_trace, pattern_trace,
  trace_stmt, trace_stmts, trace_cases,
}
use fcpp_bridge.Transpiler.Expected.{trace}
use fcpp_bridge.Transpiler.Replay.Loops.{
  pure-Gives, bind-Gives, looping, opens, refuses, last-Follows,
}
use fcpp_bridge.Transpiler.Replay.Operators.{generic_visit-Follows}
use fcpp_bridge.Transpiler.Replay.Expressions.{visit-Follows}

bind_name-Follows : (x s : String) → Follows (bind_name x s) (event (declared x))
unfolding bind_name replay apply declare
bind_name-Follows x s = record { ends = λ v. ground arith; leaves = λ v. ground arith }

report_alone : (e : String) → Follows (report e) (event (problem e))
unfolding replay apply
report_alone e = record { ends = λ v. refl; leaves = λ v. refl }

-- A reported problem that ends the method
report-Follows :
    {A : Type 0} (e : String) (a : A) → Follows (report e >> pure a) (event (problem e))
report-Follows e a = Follows-map (λ u. a) (report_alone e)

module _ (constants : Namespace) (dump : Expr → String) where
  visit_return-Follows :
      (e : Option Expr) → Follows (visit_return constants dump e) (optional_trace constants dump e)
  unfolding visit_return optional_trace
  visit_return-Follows none = Follows-pure _
  visit_return-Follows (some e) = Follows-map _ (visit-Follows constants e)

  visit_assign-Follows :
      (ts : List Expr) (e : Expr)
      → Follows (visit_assign constants dump ts e) (assign_trace constants dump ts e)
  unfolding visit_assign assign_trace
  visit_assign-Follows (Syntax.name x ∷ []) e =
      Follows-bind (visit-Follows constants e) (λ s. bind_name-Follows x s)
  visit_assign-Follows [] e = Follows-raise index_error
  visit_assign-Follows (t ∷ ts) e = report-Follows ("Unsupported assignment target: " <> dump t) ""

  visit_ann_assign-Follows :
      (t : Expr) (e : Option Expr)
      → Follows (visit_ann_assign constants dump t e) (ann_assign_trace constants dump t e)
  unfolding visit_ann_assign ann_assign_trace
  visit_ann_assign-Follows t none = Follows-pure _
  visit_ann_assign-Follows (Syntax.name x) (some e) =
      Follows-bind (visit-Follows constants e) (λ s. bind_name-Follows x s)
  visit_ann_assign-Follows t (some e) = report-Follows "Unsupported annotated assignment target" ""

  visit_aug_assign-Follows :
      (t : Expr) (o : Operator) (e : Expr)
      → Follows
          (visit_aug_assign constants dump t o e)
          (trace constants t then_do trace constants e)
  unfolding visit_aug_assign
  visit_aug_assign-Follows t o e =
      Follows-bind (visit-Follows constants t) (λ s. Follows-map _ (visit-Follows constants e))

  guarded-Follows :
      (g : Option Expr) (lines : List String)
      → Follows (guarded constants dump g lines) (optional_trace constants dump g)
  unfolding guarded optional_trace
  guarded-Follows none lines = Follows-pure _
  guarded-Follows (some g) lines = Follows-map _ (visit-Follows constants g)

  labels-Follows :
      (ps : Patterns) → Follows (visit_labels constants dump ps) (labels_trace constants dump ps)
  unfolding visit_labels labels_trace
  labels-Follows no_pattern = Follows-pure _
  labels-Follows (alternative (match_value e) ps) =
      Follows-bind (visit-Follows constants e) (λ s. Follows-map _ (labels-Follows ps))
  labels-Follows (alternative p ps) =
      Follows-bind (report_alone ("Unsupported OR sub-pattern: " <> pattern_name p))
        (λ u. labels-Follows ps)

  pattern-Follows :
      (p : Pattern) (body : String)
      → Follows (visit_pattern constants dump p body) (pattern_trace constants dump p)
  unfolding visit_pattern pattern_trace
  pattern-Follows (match_as no_pattern none) body = Follows-pure _
  pattern-Follows (match_value e) body = Follows-map _ (visit-Follows constants e)
  pattern-Follows (match_or ps) body = Follows-map _ (labels-Follows ps)
  pattern-Follows p body = report-Follows ("Unsupported match pattern: " <> pattern_name p) []

  range_header-Follows :
      (var : String) (es : Exprs) {body : M (List String)} {t : Trace}
      → Follows body t
      → Follows
          (looping body (range_header constants dump var es))
          (loop_trace constants dump (some es) t)
  unfolding range_header loop_trace
  range_header-Follows var (cons e nil) k =
      opens (Follows-map _ (visit-Follows constants e))
        (bind-Gives (visit constants e) (λ x. pure-Gives _)) k
  range_header-Follows var (cons s (cons e nil)) k =
      opens
        (Follows-bind (visit-Follows constants s) (λ x. Follows-map _ (visit-Follows constants e)))
        (bind-Gives (visit constants s) (λ x. bind-Gives (visit constants e) (λ y. pure-Gives _))) k
  range_header-Follows var (cons s (cons e (cons d nil))) k =
      opens
        (Follows-bind (visit-Follows constants s) (λ x.
          Follows-bind (visit-Follows constants e)
            (λ y. Follows-map _ (visit-Follows constants d))))
        (bind-Gives (visit constants s) (λ x.
          bind-Gives (visit constants e) (λ y. bind-Gives (visit constants d) (λ z. pure-Gives _))))
        k
  range_header-Follows var es {body} k = refuses "range() requires 1-3 arguments" body

  for-Follows :
      (target iter : Expr) {body : M (List String)} {t : Trace}
      → Follows body t
      → Follows
          (looping body (for_header constants dump target iter))
          (loop_trace constants dump (range_args iter) t)
  unfolding for_header loop_trace
  for-Follows target iter {body} {t} k =
      elim (range_args iter)
        as (λ o.
          Follows
            (looping body (elim o [
              | some args ↦ range_header constants dump (loop_variable target) args
              | none ↦
                  report "Only range()-based for loops are supported by the transpiler" >> pure none
            ]))
            (loop_trace constants dump o t)) [
              | some args ↦ range_header-Follows (loop_variable target) args k
              | none ↦ refuses "Only range()-based for loops are supported by the transpiler" body
            ]

  mutual
    unfolding visit_stmt trace_stmt

    pub visit_stmt-Follows :
        (s : Stmt) → Follows (visit_stmt constants dump s) (trace_stmt constants dump s)
    visit_stmt-Follows (expr_stmt e) = Follows-map _ (visit-Follows constants e)
    visit_stmt-Follows (return_stmt e) = visit_return-Follows e
    visit_stmt-Follows (assign ts e) = visit_assign-Follows ts e
    visit_stmt-Follows (ann_assign t e) = visit_ann_assign-Follows t e
    visit_stmt-Follows (aug_assign t o e) = visit_aug_assign-Follows t o e
    visit_stmt-Follows (if_stmt t b o) =
        Follows-bind (visit-Follows constants t)
          (λ x. Follows-bind (visit_lines-Follows b) (λ y. Follows-map _ (visit_orelse-Follows o)))
    visit_stmt-Follows (while_stmt t b o) =
        Follows-bind (visit-Follows constants t) (λ x. Follows-map _ (visit_lines-Follows b))
    visit_stmt-Follows (for_stmt target iter b o) = for-Follows target iter (visit_lines-Follows b)
    visit_stmt-Follows (match_stmt e cs) =
        Follows-bind (visit-Follows constants e) (λ x. Follows-map _ (visit_cases-Follows cs))
    visit_stmt-Follows pass_stmt = Follows-pure _
    visit_stmt-Follows break_stmt = Follows-pure _
    visit_stmt-Follows continue_stmt = Follows-pure _
    visit_stmt-Follows (other_stmt c) = generic_visit-Follows c

    visit_orelse-Follows :
        (o : Stmts) → Follows (visit_orelse constants dump o) (trace_stmts constants dump o)
    visit_orelse-Follows done = Follows-pure _
    visit_orelse-Follows (seq s done) = last-Follows _ _ _ (visit_stmt-Follows s)
    visit_orelse-Follows (seq s (seq t r)) =
        Follows-bind (visit_stmt-Follows s) (λ x. Follows-map _ (visit_lines-Follows (seq t r)))

    pub visit_lines-Follows :
        (b : Stmts) → Follows (visit_lines constants dump b) (trace_stmts constants dump b)
    visit_lines-Follows done = Follows-pure _
    visit_lines-Follows (seq s r) =
        Follows-bind (visit_stmt-Follows s) (λ x. Follows-map _ (visit_lines-Follows r))

    visit_cases-Follows :
        (cs : Cases) → Follows (visit_cases constants dump cs) (trace_cases constants dump cs)
    visit_cases-Follows no_case = Follows-pure _
    visit_cases-Follows (case p g b cs) = Follows-bind (visit_lines-Follows b) (λ lines.
        Follows-bind (guarded-Follows g lines) (λ body.
          Follows-bind (pattern-Follows p body) (λ code. Follows-map _ (visit_cases-Follows cs))))
