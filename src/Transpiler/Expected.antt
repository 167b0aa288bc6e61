-- ===== src/Transpiler/Expected.antt =====
-- The trace of a syntax tree, by recursion on the tree alone.
pub mod Statements
use fcpp_bridge.Prelude.{
  ℕ, String, Bool, true, false, Option, none, some, List, ◌==◌, ◌||◌, string_key, if◌then◌else◌,
  ltb, ◌+◌, ◌&&◌,
}
use fcpp_bridge.Ipc.Exec.{index_error}
use fcpp_bridge.Transpiler.Syntax
use fcpp_bridge.Transpiler.Syntax.{
  Expr, Exprs, Comparisons, Keywords, Operator, ComparisonOperator, UnaryOperator, bin_op, compare,
  call, constant, attribute, subscript, lambda, if_exp, bool_op, unary_op, list_expr, tuple,
  set_expr, other_expr, nil, cons, last, chain, no_keyword, keyword, other_operator,
  other_comparison, other_unary,
}
use fcpp_bridge.Transpiler.Text.{◌<>◌}
use fcpp_bridge.Transpiler.Constants.{Namespace, folded}
use fcpp_bridge.Transpiler.Visitor.{is_primitive}
use fcpp_bridge.Transpiler.Expressions.{is_tuple_hood}
use fcpp_bridge.Transpiler.Effects.{Trace, problem, primitive, silent, event, raising, ◌then_do◌}

unfoldable pub binary_trace : Operator → Trace
binary_trace (other_operator o) = event (problem ("Unsupported binary operator: " <> o))
binary_trace o = silent

unfoldable pub comparison_trace : ComparisonOperator → Trace
comparison_trace (other_comparison o) = event (problem ("Unsupported comparison: " <> o))
comparison_trace o = silent

unfoldable pub unary_trace : UnaryOperator → Trace
unary_trace (other_unary c) = event (problem ("Unsupported unary operator: " <> c))
unary_trace o = silent

-- Names that are translated whatever their arguments are
unfoldable pub takes_any : String → Bool
takes_any f = (f == "self_uid") || ((f == "max") || (f == "min"))

-- Names whose translation reads the first argument
unfoldable pub needs_argument : String → Bool
needs_argument f =
    (f == "sum")
    || ((f == "len") || ((f == "abs") || ((f == "float") || ((f == "int") || (f == "bool")))))

unfoldable pub named_trace : String → ℕ → Trace
named_trace f n =
    if is_primitive f
    then event (primitive f)
    else if takes_any f
    then silent
    else if needs_argument f && ltb n 1
    then raising index_error
    else silent

unfoldable pub named_keywords : Keywords → ℕ
named_keywords no_keyword = 0
named_keywords (keyword none e ks) = named_keywords ks
named_keywords (keyword (some k) e ks) = named_keywords ks + 1

unfoldable pub size : Exprs → ℕ
size nil = 0
size (cons e es) = size es + 1

module _ (constants : Namespace) where
  unfoldable mutual
    pub trace : Expr → Trace
    trace (bin_op l o r) = trace l then_do trace r then_do binary_trace o
    trace (compare l cs) = trace l then_do trace_chain cs
    trace (call (Expr.name f) args kws) =
        if f == "frozenset"
        then trace_frozenset args
        else if is_tuple_hood f args
        then trace_tuple args then_do event (primitive f)
        else trace_all args
          then_do trace_keywords kws
          then_do named_trace f (size args + named_keywords kws)
    trace (call (attribute e m) args kws) =
        trace e then_do trace_all args then_do trace_keywords kws
    trace (call e args kws) = silent
    trace (constant c) = silent
    trace (Expr.name x) = silent
    trace (attribute e a) = elim (folded constants (attribute e a)) [
      | some s ↦ silent
      | none ↦ trace e
    ]
    trace (subscript e i) = trace e then_do trace i
    trace (lambda xs e) = trace e
    trace (if_exp t b o) = trace t then_do trace b then_do trace o
    trace (bool_op o es) = trace_all es
    trace (unary_op o e) = trace e then_do unary_trace o
    trace (list_expr es) = trace_all es
    trace (tuple es) = trace_all es
    trace (set_expr es) = event (problem "Unsupported AST node: Set")
    trace (other_expr c) = event (problem ("Unsupported AST node: " <> c))

    pub trace_all : Exprs → Trace
    trace_all nil = silent
    trace_all (cons e es) = trace e then_do trace_all es

    pub trace_keywords : Keywords → Trace
    trace_keywords no_keyword = silent
    trace_keywords (keyword none e ks) = trace_keywords ks
    trace_keywords (keyword (some k) e ks) = trace e then_do trace_keywords ks

    pub trace_chain : Comparisons → Trace
    trace_chain last = silent
    trace_chain (chain o e cs) = trace e then_do comparison_trace o then_do trace_chain cs

    pub trace_frozenset : Exprs → Trace
    trace_frozenset (cons (set_expr es) rest) = trace_all es
    trace_frozenset es = silent

    pub trace_tuple : Exprs → Trace
    trace_tuple (cons (tuple es) nil) = trace_all es
    trace_tuple es = silent
