-- ===== src/Transpiler/Expressions.antt =====
-- The methods of `PythonAstVisitor` for expressions (transpiler/python_ast_visitor.py).
use fcpp_bridge.Prelude.{
  String, Bool, false, none, some, List, [], ◌∷◌, ◌++◌, ◌==◌, ◌||◌, string_key, if◌then◌else◌,
}
use fcpp_bridge.Ipc.Exec.{index_error, pure, raise, modify, ◌>>=◌, ◌>>◌}
use fcpp_bridge.Transpiler.Syntax.{
  Expr, Exprs, Comparisons, Keywords, Operator, ComparisonOperator, BoolOperator, UnaryOperator,
  bin_op, compare, call, constant, attribute, subscript, lambda, if_exp, bool_op, unary_op,
  list_expr, tuple, set_expr, other_expr, nil, cons, chain, no_keyword, keyword,
}
use fcpp_bridge.Transpiler.Text.{◌<>◌, join}
use fcpp_bridge.Transpiler.Constants.{Namespace, visit_constant, folded}
use fcpp_bridge.Transpiler.Visitor.{M, report, generic_visit, use_primitive, is_primitive}

-- The end of visit_BinOp
unfoldable pub binary : String → Operator → String → M String
binary l Operator.add r = pure ("(" <> l <> " + " <> r <> ")")
binary l Operator.sub r = pure ("(" <> l <> " - " <> r <> ")")
binary l Operator.mult r = pure ("(" <> l <> " * " <> r <> ")")
binary l Operator.div r = pure ("(" <> l <> " / " <> r <> ")")
binary l Operator.mod_op r = pure ("(" <> l <> " % " <> r <> ")")
binary l Operator.pow r = pure ("std::pow(" <> l <> ", " <> r <> ")")
binary l (Operator.other_operator o) r = do report ("Unsupported binary operator: " <> o); pure "0"

-- One round of the loop of visit_Compare, with what it adds to `comparisons`
unfoldable pub comparison : String → ComparisonOperator → String → M (List String)
comparison l ComparisonOperator.lt r = pure (("(" <> l <> " < " <> r <> ")") ∷ [])
comparison l ComparisonOperator.gt r = pure (("(" <> l <> " > " <> r <> ")") ∷ [])
comparison l ComparisonOperator.eq r = pure (("(" <> l <> " == " <> r <> ")") ∷ [])
comparison l ComparisonOperator.not_eq r = pure (("(" <> l <> " != " <> r <> ")") ∷ [])
comparison l ComparisonOperator.lt_e r = pure (("(" <> l <> " <= " <> r <> ")") ∷ [])
comparison l ComparisonOperator.gt_e r = pure (("(" <> l <> " >= " <> r <> ")") ∷ [])
comparison l (ComparisonOperator.other_comparison o) r = do
  report ("Unsupported comparison: " <> o)
  pure []

-- The end of visit_UnaryOp
unfoldable pub unary : UnaryOperator → String → M String
unary UnaryOperator.not_op x = pure ("(!" <> x <> ")")
unary UnaryOperator.u_sub x = pure ("(-" <> x <> ")")
unary UnaryOperator.u_add x = pure ("(+" <> x <> ")")
unary (UnaryOperator.other_unary class_name) x = do
  report ("Unsupported unary operator: " <> class_name)
  pure "0"

abbrev pub bool_sign : BoolOperator → String
bool_sign BoolOperator.and_op = " && "
bool_sign BoolOperator.or_op = " || "

-- args[0]
unfoldable pub first_arg : List String → M String
first_arg [] = raise index_error
first_arg (a ∷ as_list) = pure a

abbrev pub primitive_call : String → List String → String
primitive_call f [] = f <> "(CALL)"
primitive_call f (a ∷ as_list) = f <> "(CALL, " <> join ", " (a ∷ as_list) <> ")"

abbrev pub around : String → List String → String → M String
around before args after = do a ← first_arg args; pure (before <> a <> after)

-- The end of visit_Call for a plain name, from the test of `_FCPP_PRIMITIVES` on
unfoldable pub named_call : String → List String → M String
unfolding first_arg
named_call f args =
    if is_primitive f
    then modify (use_primitive f) >> pure (primitive_call f args)
    else if f == "self_uid"
    then pure "node.uid"
    else if f == "max"
    then pure ("std::max(" <> join ", " args <> ")")
    else if f == "min"
    then pure ("std::min(" <> join ", " args <> ")")
    else if f == "sum"
    then (do
      a ← first_arg args
      pure ("std::accumulate(" <> a <> ".begin(), " <> a <> ".end(), 0)"))
    else if f == "len"
    then around "(" args ").size()"
    else if f == "abs"
    then around "std::abs(" args ")"
    else if f == "float"
    then around "static_cast<double>(" args ")"
    else if f == "int"
    then around "static_cast<int>(" args ")"
    else if f == "bool"
    then around "static_cast<bool>(" args ")"
    else pure (f <> "(" <> join ", " args <> ")")

-- func_name in ("min_hood", "max_hood") and the only argument is a tuple
unfoldable pub is_tuple_hood : String → Exprs → Bool
is_tuple_hood f (cons (tuple es) nil) = (f == "min_hood") || (f == "max_hood")
is_tuple_hood f es = false

abbrev pub lambda_params : List String → List String
lambda_params [] = []
lambda_params (x ∷ xs) = ("auto " <> x) ∷ lambda_params xs

abbrev pub set_text : List String → String
set_text [] = "set_t{}"
set_text (s ∷ ss) = "set_t{" <> join ", " (s ∷ ss) <> "}"

module _ (constants : Namespace) where
  unfoldable mutual
    -- visit
    pub visit : Expr → M String
    visit (bin_op l o r) = do a ← visit l; b ← visit r; binary a o b
    visit (compare l cs) = do a ← visit l; parts ← visit_chain a cs; pure (join " && " parts)
    visit (call (Expr.name f) args kws) =
        if f == "frozenset"
        then (do elems ← visit_frozenset args; pure (set_text elems))
        else if is_tuple_hood f args
        then (do
          elems ← visit_tuple args
          modify (use_primitive f)
          pure (f <> "(CALL, std::make_tuple(" <> join ", " elems <> "))"))
        else (do a ← visit_all args; k ← visit_keywords kws; named_call f (a ++ k))
    visit (call (attribute e method) args kws) = do
      obj ← visit e
      a ← visit_all args
      k ← visit_keywords kws
      pure (obj <> "." <> method <> "(" <> join ", " (a ++ k) <> ")")
    visit (call e args kws) = pure "0"
    visit (constant c) = pure (visit_constant c)
    visit (Expr.name x) = pure x
    visit (attribute e a) = elim (folded constants (attribute e a)) [
      | some s ↦ pure s
      | none ↦ do obj ← visit e; pure (obj <> "." <> a)
    ]
    visit (subscript e i) = do obj ← visit e; index ← visit i; pure (obj <> "[" <> index <> "]")
    visit (lambda params e) = do
      body ← visit e
      pure ("[=](" <> join ", " (lambda_params params) <> ") { return " <> body <> "; }")
    visit (if_exp t b o) = do
      test ← visit t
      body ← visit b
      orelse ← visit o
      pure ("(" <> test <> " ? " <> body <> " : " <> orelse <> ")")
    visit (bool_op o es) = do parts ← visit_all es; pure ("(" <> join (bool_sign o) parts <> ")")
    visit (unary_op o e) = do operand ← visit e; unary o operand
    visit (list_expr es) = do elements ← visit_all es; pure ("{" <> join ", " elements <> "}")
    visit (tuple es) = do elements ← visit_all es; pure ("{" <> join ", " elements <> "}")
    visit (set_expr es) = generic_visit "Set"
    visit (other_expr class_name) = generic_visit class_name

    -- [self.visit(e) for e in es]
    pub visit_all : Exprs → M (List String)
    visit_all nil = pure []
    visit_all (cons e es) = do s ← visit e; ss ← visit_all es; pure (s ∷ ss)

    -- The values of the keyword arguments that have a name
    pub visit_keywords : Keywords → M (List String)
    visit_keywords no_keyword = pure []
    visit_keywords (keyword none e kws) = visit_keywords kws
    visit_keywords (keyword (some k) e kws) = do s ← visit e; ss ← visit_keywords kws; pure (s ∷ ss)

    -- The loop of visit_Compare
    pub visit_chain : String → Comparisons → M (List String)
    visit_chain left Comparisons.last = pure []
    visit_chain left (chain o e cs) = do
      right ← visit e
      part ← comparison left o right
      parts ← visit_chain right cs
      pure (part ++ parts)

    -- The elements of the set literal that `frozenset` is called on
    pub visit_frozenset : Exprs → M (List String)
    visit_frozenset (cons (set_expr es) rest) = visit_all es
    visit_frozenset es = pure []

    -- The elements of the tuple that is the only argument
    pub visit_tuple : Exprs → M (List String)
    visit_tuple (cons (tuple es) nil) = visit_all es
    visit_tuple es = pure []
