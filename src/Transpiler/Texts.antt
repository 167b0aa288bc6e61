-- ===== src/Transpiler/Texts.antt =====
-- Texts that the visitor gives for two common forms.
use fcpp_bridge.Prelude.{String, false, List, [], ◌∷◌, ◌++◌, ◌≡◌, arith, string_key, ==-self}
use fcpp_bridge.Ipc.Exec.{ok}
use fcpp_bridge.Transpiler.Syntax
use fcpp_bridge.Transpiler.Syntax.{
  Expr, Comparisons, compare, unary_op, not_op, if_stmt, assign, seq, done,
}
use fcpp_bridge.Transpiler.Text.{◌<>◌, join}
use fcpp_bridge.Transpiler.Constants.{Namespace}
use fcpp_bridge.Transpiler.Visitor.{Visitor, member, declare}
use fcpp_bridge.Transpiler.Expressions.{visit, visit_chain, unary}
use fcpp_bridge.Transpiler.Statements.{visit_stmt, bind_name, block, indented, visit_assign}
use fcpp_bridge.Transpiler.Reports.{member-append}

module _ (constants : Namespace) where
  -- The negation of a row of comparisons is `!` before the comparisons joined by `&&`, with no
  -- parentheses round them: of two or more, only the first is negated.
  pub visit-not_compare :
      (l : Expr) (cs : Comparisons) (v u w : Visitor) (a : String) (parts : List String)
      → visit constants l v ≡ (ok a, u)
      → visit_chain constants a cs u ≡ (ok parts, w)
      → visit constants (unary_op not_op (compare l cs)) v
        ≡ (ok ("(!" <> join " && " parts <> ")"), w)
  unfolding visit unary
  visit-not_compare l cs v u w a parts p q = ground (arith, p, q)

  -- A name that both branches of an `if` assign first is declared by `auto` in the block of the first
  -- branch only; the `else` block assigns to a name that is not declared there.
  pub visit_stmt-if_assign :
      (dump : Expr → String) (t x a b : String) (v : Visitor)
      → member x v.declared_vars ≡ false
      → (visit_stmt constants dump
          (if_stmt
            (Syntax.name t)
            (seq (assign (Syntax.name x ∷ []) (Syntax.name a)) done)
            (seq (assign (Syntax.name x ∷ []) (Syntax.name b)) done))
          v).0
        ≡ ok (
            block ("if (" <> t <> ")") (indented ("auto " <> x <> " = " <> a <> ";") ++ [])
            <> block " else" (indented (x <> " = " <> b <> ";")))
  unfolding visit visit_stmt visit_assign bind_name declare member
  visit_stmt-if_assign dump t x a b v m =
      ground (arith, member-append x v.declared_vars (x ∷ []), ==-self x)
