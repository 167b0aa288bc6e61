-- ===== src/Transpiler/Replay/Expressions.antt =====
-- The visitor of expressions against the traces.
use fcpp_bridge.Prelude.{
  ℕ, String, none, some, List, ◌++◌, ◌≡◌, arith, ◌+◌, inl, inr, ◌==◌, string_key, length,
  length-append, subst,
}
use fcpp_bridge.Ipc.Exec.{ok, Result-cases}
use fcpp_bridge.Transpiler.Syntax.{
  Expr, Exprs, Comparisons, Keywords, bin_op, compare, call, constant, attribute, subscript, lambda,
  if_exp, bool_op, unary_op, list_expr, tuple, set_expr, other_expr, nil, cons, last, chain,
  no_keyword, keyword,
}
use fcpp_bridge.Transpiler.Text.{◌<>◌, join}
use fcpp_bridge.Transpiler.Constants.{Namespace, folded}
use fcpp_bridge.Transpiler.Visitor.{Visitor}
use fcpp_bridge.Transpiler.Expressions.{
  named_call, is_tuple_hood, visit, visit_all, visit_keywords, visit_chain, visit_frozenset,
  visit_tuple,
}
use fcpp_bridge.Transpiler.Effects.{
  Follows, Follows-bind, Follows-bind_when, Follows-map, Follows-pure,
}
use fcpp_bridge.Transpiler.Expected.{
  named_trace, size, named_keywords, trace, trace_all, trace_keywords, trace_chain, trace_frozenset,
  trace_tuple,
}
use fcpp_bridge.Transpiler.Replay.Operators.{
  generic_visit-Follows, binary-Follows, comparison-Follows, unary-Follows, Follows-if2,
  folded-Follows, use_primitive-Follows, named_call-Follows,
}

module _ (constants : Namespace) where
  visit_all-length :
      (es : Exprs) (v : Visitor) (ss : List String)
      → (visit_all constants es v).0 ≡ ok ss
      → length ss ≡ size es
  unfolding visit_all size
  visit_all-length nil v ss q = ground arith
  visit_all-length (cons e es) v ss q = elim (Result-cases (visit constants e v).0) [
    | inr (x, p) ↦ absurd (ground (arith, p))
    | inl (s, p) ↦ elim (Result-cases (visit_all constants es (visit constants e v).1).0) [
      | inr (x, r) ↦ absurd (ground (arith, p, r))
      | inl (t, r) ↦ ground (arith, p, r, visit_all-length es (visit constants e v).1 t r)
    ]
  ]

  visit_keywords-length :
      (ks : Keywords) (v : Visitor) (ss : List String)
      → (visit_keywords constants ks v).0 ≡ ok ss
      → length ss ≡ named_keywords ks
  unfolding visit_keywords named_keywords
  visit_keywords-length no_keyword v ss q = ground arith
  visit_keywords-length (keyword none e ks) v ss q = visit_keywords-length ks v ss q
  visit_keywords-length (keyword (some k) e ks) v ss q =
      elim (Result-cases (visit constants e v).0) [
        | inr (x, p) ↦ absurd (ground (arith, p))
        | inl (s, p) ↦ elim (Result-cases (visit_keywords constants ks (visit constants e v).1).0) [
          | inr (x, r) ↦ absurd (ground (arith, p, r))
          | inl (t, r) ↦ ground (arith, p, r, visit_keywords-length ks (visit constants e v).1 t r)
        ]
      ]

  -- The arguments of a call by their number
  counted :
      (f : String) (a k : List String) {n j : ℕ}
      → length a ≡ n
      → length k ≡ j
      → Follows (named_call f (a ++ k)) (named_trace f (n + j))
  counted f a k {n} {j} p q =
      let e : length (a ++ k) ≡ n + j = omega (arith, length-append a k) in
      subst (λ c. Follows (named_call f (a ++ k)) (named_trace f c)) e
        (named_call-Follows f (a ++ k))

  mutual
    unfolding visit trace

    pub visit-Follows : (e : Expr) → Follows (visit constants e) (trace constants e)
    visit-Follows (bin_op l o r) =
        Follows-bind (visit-Follows l)
          (λ a. Follows-bind (visit-Follows r) (λ b. binary-Follows a o b))
    visit-Follows (compare l cs) =
        Follows-bind (visit-Follows l) (λ a. Follows-map _ (visit_chain-Follows a cs))
    visit-Follows (call (Expr.name f) args kws) =
        Follows-if2 (f == "frozenset") (Follows-map _ (visit_frozenset-Follows args)) (
          Follows-if2 (is_tuple_hood f args)
            (Follows-bind (visit_tuple-Follows args) (λ es.
              Follows-map (λ u. f <> "(CALL, std::make_tuple(" <> join ", " es <> "))")
                (use_primitive-Follows f)))
            (Follows-bind_when (λ a. length a ≡ size args) (visit_all-Follows args)
              (visit_all-length args)
              (λ a p.
                Follows-bind_when (λ k. length k ≡ named_keywords kws) (visit_keywords-Follows kws)
                  (visit_keywords-length kws) (λ k q. counted f a k p q))))
    visit-Follows (call (attribute e m) args kws) = Follows-bind (visit-Follows e) (λ obj.
        Follows-bind (visit_all-Follows args) (λ a. Follows-map _ (visit_keywords-Follows kws)))
    visit-Follows (call g args kws) = Follows-pure _
    visit-Follows (constant c) = Follows-pure _
    visit-Follows (Expr.name x) = Follows-pure _
    visit-Follows (attribute e a) =
        folded-Follows (folded constants (attribute e a)) (visit-Follows e) _
    visit-Follows (subscript e i) =
        Follows-bind (visit-Follows e) (λ a. Follows-map _ (visit-Follows i))
    visit-Follows (lambda xs e) = Follows-map _ (visit-Follows e)
    visit-Follows (if_exp t b o) =
        Follows-bind (visit-Follows t)
          (λ x. Follows-bind (visit-Follows b) (λ y. Follows-map _ (visit-Follows o)))
    visit-Follows (bool_op o es) = Follows-map _ (visit_all-Follows es)
    visit-Follows (unary_op o e) = Follows-bind (visit-Follows e) (λ a. unary-Follows o a)
    visit-Follows (list_expr es) = Follows-map _ (visit_all-Follows es)
    visit-Follows (tuple es) = Follows-map _ (visit_all-Follows es)
    visit-Follows (set_expr es) = generic_visit-Follows "Set"
    visit-Follows (other_expr c) = generic_visit-Follows c

    visit_all-Follows : (es : Exprs) → Follows (visit_all constants es) (trace_all constants es)
    visit_all-Follows nil = Follows-pure _
    visit_all-Follows (cons e es) =
        Follows-bind (visit-Follows e) (λ s. Follows-map _ (visit_all-Follows es))

    visit_keywords-Follows :
        (ks : Keywords) → Follows (visit_keywords constants ks) (trace_keywords constants ks)
    visit_keywords-Follows no_keyword = Follows-pure _
    visit_keywords-Follows (keyword none e ks) = visit_keywords-Follows ks
    visit_keywords-Follows (keyword (some k) e ks) =
        Follows-bind (visit-Follows e) (λ s. Follows-map _ (visit_keywords-Follows ks))

    visit_chain-Follows :
        (a : String) (cs : Comparisons)
        → Follows (visit_chain constants a cs) (trace_chain constants cs)
    visit_chain-Follows a last = Follows-pure _
    visit_chain-Follows a (chain o e cs) = Follows-bind (visit-Follows e) (λ b.
        Follows-bind (comparison-Follows a o b) (λ p. Follows-map _ (visit_chain-Follows b cs)))

    visit_frozenset-Follows :
        (es : Exprs) → Follows (visit_frozenset constants es) (trace_frozenset constants es)
    visit_frozenset-Follows nil = Follows-pure _
    visit_frozenset-Follows (cons (set_expr es) rest) = visit_all-Follows es
    visit_frozenset-Follows es = Follows-pure _

    visit_tuple-Follows :
        (es : Exprs) → Follows (visit_tuple constants es) (trace_tuple constants es)
    visit_tuple-Follows nil = Follows-pure _
    visit_tuple-Follows (cons (tuple es) nil) = visit_all-Follows es
    visit_tuple-Follows es = Follows-pure _
