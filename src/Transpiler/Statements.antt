-- ===== src/Transpiler/Statements.antt =====
-- The methods of `PythonAstVisitor` for statements (transpiler/python_ast_visitor.py). `dump` stands
-- for `ast.dump`, which gives the text of a node for a message.
use fcpp_bridge.Prelude.{
  String, Bool, true, false, Option, none, some, List, [], ◌∷◌, ◌++◌, ◌==◌, string_key,
  if◌then◌else◌,
}
use fcpp_bridge.Ipc.Exec.{index_error, pure, raise, gets, modify, ◌>>=◌, ◌>>◌}
use fcpp_bridge.Transpiler.Syntax.{
  Expr, Exprs, Operator, Pattern, Patterns, Stmt, Stmts, Cases, call, nil, cons, match_value,
  match_or, match_as, other_pattern, no_pattern, alternative, expr_stmt, return_stmt, assign,
  ann_assign, aug_assign, if_stmt, while_stmt, for_stmt, match_stmt, pass_stmt, break_stmt,
  continue_stmt, other_stmt, done, seq, no_case, case,
}
use fcpp_bridge.Transpiler.Text.{◌<>◌, join, split_lines, prefix_all, any_starts_with}
use fcpp_bridge.Transpiler.Constants.{Namespace}
use fcpp_bridge.Transpiler.Visitor.{Visitor, M, report, generic_visit, declare, member}
use fcpp_bridge.Transpiler.Expressions.{visit}

-- The end of visit_Assign and visit_AnnAssign
unfoldable pub bind_name : String → String → M String
bind_name x value = do
  known ← gets (λ (v : Visitor). member x v.declared_vars)
  (if known
      then pure (x <> " = " <> value <> ";")
      else modify (declare x) >> pure ("auto " <> x <> " = " <> value <> ";"))

-- _ops.get(type(node.op), "+=")
unfoldable pub augmented : Operator → String
augmented Operator.add = "+="
augmented Operator.sub = "-="
augmented Operator.mult = "*="
augmented Operator.div = "/="
augmented Operator.mod_op = "%="
augmented o = "+="

-- The arguments of `range`, if the iterable is a call of it
unfoldable pub range_args : Expr → Option Exprs
range_args (call (Expr.name f) args kws) = if f == "range" then some args else none
range_args e = none

abbrev pub loop_variable : Expr → String
loop_variable (Expr.name x) = x
loop_variable e = "i"

-- The lines that `transpile_statements` adds for one statement
unfoldable pub indented : String → List String
indented String.[] = []
indented (String.◌∷◌ c s) = prefix_all "    " (split_lines (String.◌∷◌ c s))

abbrev pub block : String → List String → String
block before lines = before <> " {\n" <> join "\n" lines <> "\n}"

-- Is the `else` part one `if` statement?
abbrev pub is_elif : Stmt → Bool
is_elif (if_stmt t b o) = true
is_elif s = false

abbrev pub pattern_name : Pattern → String
pattern_name (match_value e) = "MatchValue"
pattern_name (match_or ps) = "MatchOr"
pattern_name (match_as ps x) = "MatchAs"
pattern_name (other_pattern class_name) = class_name

unfoldable pub add_default : List String → List String
add_default cs = if any_starts_with "default" cs then cs else cs ++ "default: break;" ∷ []

module _ (constants : Namespace) (dump : Expr → String) where
  unfoldable pub visit_return : Option Expr → M String
  visit_return none = pure "return;"
  visit_return (some e) = do s ← visit constants e; pure ("return " <> s <> ";")

  unfoldable pub visit_assign : List Expr → Expr → M String
  visit_assign (Expr.name x ∷ []) e = do value ← visit constants e; bind_name x value
  visit_assign [] e = raise index_error
  visit_assign (t ∷ ts) e = do report ("Unsupported assignment target: " <> dump t); pure ""

  unfoldable pub visit_ann_assign : Expr → Option Expr → M String
  visit_ann_assign t none = pure ""
  visit_ann_assign (Expr.name x) (some e) = do value ← visit constants e; bind_name x value
  visit_ann_assign t (some e) = do report "Unsupported annotated assignment target"; pure ""

  unfoldable pub visit_aug_assign : Expr → Operator → Expr → M String
  visit_aug_assign t o e = do
    target ← visit constants t
    value ← visit constants e
    pure (target <> " " <> augmented o <> " " <> value <> ";")

  -- The header of a `for` loop; `none` where visit_For returns at once.
  unfoldable pub range_header : String → Exprs → M (Option String)
  range_header var (cons e nil) = do
    end ← visit constants e
    pure (some ("int " <> var <> " = 0; " <> var <> " < " <> end <> "; ++" <> var))
  range_header var (cons s (cons e nil)) = do
    start ← visit constants s
    end ← visit constants e
    pure (some ("int " <> var <> " = " <> start <> "; " <> var <> " < " <> end <> "; ++" <> var))
  range_header var (cons s (cons e (cons d nil))) = do
    start ← visit constants s
    end ← visit constants e
    step ← visit constants d
    pure (
        some (
          "int " <> var <> " = " <> start <> "; " <> var <> " < " <> end <> "; " <> var <> " += "
          <> step))
  range_header var es = do report "range() requires 1-3 arguments"; pure none

  unfoldable pub for_header : Expr → Expr → M (Option String)
  for_header target iter = elim (range_args iter) [
    | some args ↦ range_header (loop_variable target) args
    | none ↦ do report "Only range()-based for loops are supported by the transpiler"; pure none
  ]

  -- The guard of a case round its body
  unfoldable pub guarded : Option Expr → List String → M String
  guarded none lines = pure (join "\n" lines)
  guarded (some g) lines = do
    cond ← visit constants g
    pure ("if (" <> cond <> ") {\n" <> join "\n" lines <> "\n    }")

  unfoldable pub visit_labels : Patterns → M (List String)
  visit_labels no_pattern = pure []
  visit_labels (alternative (match_value e) ps) = do
    s ← visit constants e
    ls ← visit_labels ps
    pure (("case " <> s <> ":") ∷ ls)
  visit_labels (alternative p ps) = do
    report ("Unsupported OR sub-pattern: " <> pattern_name p)
    visit_labels ps

  abbrev pub shared_body : List String → String → List String
  shared_body [] body = []
  shared_body (l ∷ ls) body = (join "\n" (l ∷ ls) <> "\n" <> body <> "\n    break;") ∷ []

  -- What one case adds to `cases_cpp`
  unfoldable pub visit_pattern : Pattern → String → M (List String)
  visit_pattern (match_as no_pattern none) body =
      pure (("default:\n" <> body <> "\n    break;") ∷ [])
  visit_pattern (match_value e) body = do
    val ← visit constants e
    pure (("case " <> val <> ":\n" <> body <> "\n    break;") ∷ [])
  visit_pattern (match_or ps) body = do labels ← visit_labels ps; pure (shared_body labels body)
  visit_pattern p body = do report ("Unsupported match pattern: " <> pattern_name p); pure []

  unfoldable mutual
    -- visit
    pub visit_stmt : Stmt → M String
    visit_stmt (expr_stmt e) = do s ← visit constants e; pure (s <> ";")
    visit_stmt (return_stmt e) = visit_return e
    visit_stmt (assign ts e) = visit_assign ts e
    visit_stmt (ann_assign t e) = visit_ann_assign t e
    visit_stmt (aug_assign t o e) = visit_aug_assign t o e
    visit_stmt (if_stmt t b o) = do
      test ← visit constants t
      body ← visit_lines b
      orelse ← visit_orelse o
      pure (block ("if (" <> test <> ")") body <> orelse)
    visit_stmt (while_stmt t b o) = do
      test ← visit constants t
      body ← visit_lines b
      pure (block ("while (" <> test <> ")") body)
    visit_stmt (for_stmt target iter b o) = do
      header ← for_header target iter
      elim header [
        | none ↦ pure ""
        | some h ↦ do body ← visit_lines b; pure (block ("for (" <> h <> ")") body)
      ]
    visit_stmt (match_stmt subject cases) = do
      s ← visit constants subject
      cs ← visit_cases cases
      pure (block ("switch (" <> s <> ")") (add_default cs))
    visit_stmt pass_stmt = pure ""
    visit_stmt break_stmt = pure "break;"
    visit_stmt continue_stmt = pure "continue;"
    visit_stmt (other_stmt class_name) = generic_visit class_name

    -- The `else` part of visit_If
    pub visit_orelse : Stmts → M String
    visit_orelse done = pure ""
    visit_orelse (seq s done) =
        if is_elif s
        then (do inner ← visit_stmt s; pure (" else " <> inner))
        else (do code ← visit_stmt s; pure (block " else" (indented code)))
    visit_orelse (seq s (seq t r)) = do
      code ← visit_stmt s
      rest ← visit_lines (seq t r)
      pure (block " else" (indented code ++ rest))

    -- The lines of transpile_statements
    pub visit_lines : Stmts → M (List String)
    visit_lines done = pure []
    visit_lines (seq s r) = do
      code ← visit_stmt s
      rest ← visit_lines r
      pure (indented code ++ rest)

    -- The loop of visit_Match
    pub visit_cases : Cases → M (List String)
    visit_cases no_case = pure []
    visit_cases (case p g b cs) = do
      lines ← visit_lines b
      body ← guarded g lines
      code ← visit_pattern p body
      rest ← visit_cases cs
      pure (code ++ rest)

  unfoldable pub transpile_statements : Stmts → M String
  unfolding visit_lines
  transpile_statements stmts = do lines ← visit_lines stmts; pure (join "\n" lines)
