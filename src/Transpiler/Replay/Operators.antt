-- ===== src/Transpiler/Replay/Operators.antt =====
-- The ends of the visitor's methods, which do not visit a further node, against their traces.
use fcpp_bridge.Prelude.{
  ℕ, String, Bool, true, false, Option, none, some, List, [], ◌∷◌, ◌≡◌, refl, arith, ◌==◌,
  string_key, length, ltb, subst, if◌then◌else◌,
}
use fcpp_bridge.Ipc.Exec.{index_error, pure, modify, ◌>>=◌, ◌>>◌}
use fcpp_bridge.Transpiler.Syntax.{
  Operator, ComparisonOperator, UnaryOperator, add, sub, mult, div, mod_op, pow, other_operator, lt,
  gt, eq, not_eq, lt_e, gt_e, other_comparison, not_op, u_sub, u_add, other_unary,
}
use fcpp_bridge.Transpiler.Text.{◌<>◌}
use fcpp_bridge.Transpiler.Visitor.{M, is_primitive, generic_visit, use_primitive}
use fcpp_bridge.Transpiler.Expressions.{binary, comparison, unary, named_call, first_arg}
use fcpp_bridge.Transpiler.Effects.{
  Follows, Follows-map, Follows-pure, Follows-raise, Follows-modify, replay, apply, primitive,
  problem, Trace, raising, event, silent,
}
use fcpp_bridge.Transpiler.Expected.{
  binary_trace, comparison_trace, unary_trace, named_trace, needs_argument, takes_any,
}

pub generic_visit-Follows :
    (c : String) → Follows (generic_visit c) (event (problem (◌<>◌ "Unsupported AST node: " c)))
unfolding generic_visit replay apply
generic_visit-Follows c = record { ends = λ v. refl; leaves = λ v. refl }

pub binary-Follows :
    (a : String) (o : Operator) (b : String) → Follows (binary a o b) (binary_trace o)
unfolding binary binary_trace replay apply
binary-Follows a add b = record { ends = λ v. refl; leaves = λ v. refl }
binary-Follows a sub b = record { ends = λ v. refl; leaves = λ v. refl }
binary-Follows a mult b = record { ends = λ v. refl; leaves = λ v. refl }
binary-Follows a div b = record { ends = λ v. refl; leaves = λ v. refl }
binary-Follows a mod_op b = record { ends = λ v. refl; leaves = λ v. refl }
binary-Follows a pow b = record { ends = λ v. refl; leaves = λ v. refl }
binary-Follows a (other_operator c) b = record { ends = λ v. refl; leaves = λ v. refl }

pub comparison-Follows :
    (a : String) (o : ComparisonOperator) (b : String)
    → Follows (comparison a o b) (comparison_trace o)
unfolding comparison comparison_trace replay apply
comparison-Follows a lt b = record { ends = λ v. refl; leaves = λ v. refl }
comparison-Follows a gt b = record { ends = λ v. refl; leaves = λ v. refl }
comparison-Follows a eq b = record { ends = λ v. refl; leaves = λ v. refl }
comparison-Follows a not_eq b = record { ends = λ v. refl; leaves = λ v. refl }
comparison-Follows a lt_e b = record { ends = λ v. refl; leaves = λ v. refl }
comparison-Follows a gt_e b = record { ends = λ v. refl; leaves = λ v. refl }
comparison-Follows a (other_comparison c) b = record { ends = λ v. refl; leaves = λ v. refl }

pub unary-Follows : (o : UnaryOperator) (a : String) → Follows (unary o a) (unary_trace o)
unfolding unary unary_trace replay apply
unary-Follows not_op a = record { ends = λ v. refl; leaves = λ v. refl }
unary-Follows u_sub a = record { ends = λ v. refl; leaves = λ v. refl }
unary-Follows u_add a = record { ends = λ v. refl; leaves = λ v. refl }
unary-Follows (other_unary c) a = record { ends = λ v. refl; leaves = λ v. refl }

pub Follows-if :
    {A : Type 0} {m n : M A} {t : Trace} (b : Bool)
    → (b ≡ true → Follows m t)
    → (b ≡ false → Follows n t)
    → Follows (if b then m else n) t
Follows-if true h k = h refl
Follows-if false h k = k refl

pub Follows-if2 :
    {A : Type 0} {m n : M A} {t u : Trace} (b : Bool)
    → Follows m t
    → Follows n u
    → Follows (if b then m else n) (if b then t else u)
Follows-if2 true h k = h
Follows-if2 false h k = k

pub folded-Follows :
    (o : Option String) {m : M String} {t : Trace}
    → Follows m t
    → (f : String → String)
    → Follows
        (elim o [ some s ↦ pure s | none ↦ m >>= λ a. pure (f a) ])
        (elim o [ some s ↦ silent | none ↦ t ])
folded-Follows none h f = Follows-map f h
folded-Follows (some s) h f = Follows-pure s

silent_trace :
    (f : String) (n : ℕ) → is_primitive f ≡ false → takes_any f ≡ true → silent ≡ named_trace f n
unfolding named_trace
silent_trace f n p q = rw (p, q)

argument_trace :
    (f : String) (n : ℕ)
    → is_primitive f ≡ false
    → takes_any f ≡ false
    → needs_argument f ≡ true
    → (if ltb n 1 then raising index_error else silent) ≡ named_trace f n
unfolding named_trace
argument_trace f n p q r = rw (p, q, r)

first_arg-Follows :
    (args : List String)
    → Follows (first_arg args) (if ltb (length args) 1 then raising index_error else silent)
unfolding first_arg replay
first_arg-Follows [] = Follows-raise index_error
first_arg-Follows (a ∷ as_list) = record { ends = λ v. ground arith; leaves = λ v. ground arith }

-- A translation that reads the first argument
reading-Follows :
    (f : String) (args : List String) (text_of : String → String)
    → is_primitive f ≡ false
    → takes_any f ≡ false
    → needs_argument f ≡ true
    → Follows (first_arg args >>= λ a. pure (text_of a)) (named_trace f (length args))
reading-Follows f args text_of p q r =
    subst (Follows (first_arg args >>= λ a. pure (text_of a)))
      (argument_trace f (length args) p q r) (Follows-map text_of (first_arg-Follows args))

pub use_primitive-Follows : (f : String) → Follows (modify (use_primitive f)) (event (primitive f))
unfolding apply
use_primitive-Follows f = Follows-modify (primitive f) (use_primitive f) (λ v. refl)

primitive-Follows :
    (f s : String) (n : ℕ)
    → is_primitive f ≡ true
    → Follows (modify (use_primitive f) >> pure s) (named_trace f n)
unfolding named_trace
primitive-Follows f s n p = rw p (Follows-map (λ u. s) (use_primitive-Follows f))

silent-Follows :
    (f s : String) (n : ℕ)
    → is_primitive f ≡ false
    → takes_any f ≡ true
    → Follows (pure s) (named_trace f n)
silent-Follows f s n p q = subst (Follows (pure s)) (silent_trace f n p q) (Follows-pure s)

other-Follows :
    (f s : String) (n : ℕ)
    → is_primitive f ≡ false
    → takes_any f ≡ false
    → needs_argument f ≡ false
    → Follows (pure s) (named_trace f n)
unfolding named_trace
other-Follows f s n p q r = rw (p, q, r) (Follows-pure s)

pub named_call-Follows :
    (f : String) (args : List String) → Follows (named_call f args) (named_trace f (length args))
unfolding named_call takes_any needs_argument
named_call-Follows f args = Follows-if (is_primitive f) (primitive-Follows f _ _) (λ p.
    Follows-if (f == "self_uid") (λ h. silent-Follows f _ _ p (ground arith))
      (λ a.
        Follows-if (f == "max") (λ h. silent-Follows f _ _ p (ground arith))
          (λ b.
            Follows-if (f == "min") (λ h. silent-Follows f _ _ p (ground arith))
              (λ c.
                let q : takes_any f ≡ false = ground arith in
                Follows-if (f == "sum") (λ h. reading-Follows f args _ p q (rw h))
                  (λ d.
                    Follows-if (f == "len") (λ h. reading-Follows f args _ p q (rw (d, h)))
                      (λ e.
                        Follows-if (f == "abs") (λ h. reading-Follows f args _ p q (rw (d, e, h)))
                          (λ g.
                            Follows-if (f == "float")
                              (λ h. reading-Follows f args _ p q (rw (d, e, g, h)))
                              (λ i.
                                Follows-if (f == "int")
                                  (λ h. reading-Follows f args _ p q (rw (d, e, g, i, h)))
                                  (λ j.
                                    Follows-if (f == "bool")
                                      (λ h. reading-Follows f args _ p q (rw (d, e, g, i, j, h)))
                                      (λ k.
                                        other-Follows f _ _ p q (rw (d, e, g, i, j, k))))))))))))
