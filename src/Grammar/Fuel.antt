-- ===== src/Grammar/Fuel.antt =====
-- The parser's fuel: three units for each token and three more are enough for an expression.
use fcpp_bridge.Prelude.{
  ℕ, zero, suc, ◌+◌, ◌*◌, ◌≤◌, String, true, false, List, [], ◌∷◌, ◌≡◌, refl, arith, ◌⊎◌, inl, inr,
  ◌==◌, string_key, length, Bool-cases, if◌then◌else◌,
}
use fcpp_bridge.Ipc.Exec.{Exc, Result, ok, err, parser_error, value_error, recursion_error}
use fcpp_bridge.Grammar.Nodes.{AstNode, Nodes, nil, cons}
use fcpp_bridge.Grammar.Bounded.{
  Bounded, Bounded-weaken, Bounded-ok, Bounded-err, Bounded-bind, either,
}
use fcpp_bridge.Grammar.Parser.{
  Lexer, tokenize, consume, expect, number_node, parse_expr, binary_loop, parse_call_expr,
  parse_args, more_args, parse_atom, is_one_of, operators, all_primitives, binop_node, snoc_node,
  expression, parse_initial_state, parse_compute, parse_function, parse_functions, parse_program,
  as_parser_error, finish, parse_string,
}

consume-Bounded : (ts : List String) → Bounded 1 (length ts) (consume ts)
unfolding consume
consume-Bounded [] = Bounded-err 1 0 []
consume-Bounded (t ∷ ts) = Bounded-ok t 1 (length (t ∷ ts)) ts (omega arith)

expect-Bounded : (e : String) (ts : List String) → Bounded 1 (length ts) (expect e ts)
unfolding expect
expect-Bounded e [] = Bounded-err 1 0 []
expect-Bounded e (t ∷ ts) =
    elim (t == e)
      as (λ b. Bounded 1 (length (t ∷ ts)) (if b then (ok t, ts) else (err parser_error, t ∷ ts))) [
        | true ↦ Bounded-ok t 1 (length (t ∷ ts)) ts (omega arith)
        | false ↦ Bounded-err 1 (length (t ∷ ts)) (t ∷ ts)
      ]

value-Bounded : {A : Type 0} (n : ℕ) (ts : List String) → Bounded {A = A} 1 n (err value_error, ts)
value-Bounded n ts = record {
  raises = λ e q. inr (ground arith);
  shorter = λ b q. absurd (ground arith);
}

module _ (l : Lexer) where
  number-Bounded :
      (t : String) (n : ℕ) (ts : List String) → length ts + 1 ≤ n → Bounded 1 n (number_node l t ts)
  unfolding number_node
  number-Bounded t n ts h =
      either (l.has_dot t) (either (l.is_float t) (Bounded-ok _ 1 n ts h) (value-Bounded n ts))
        (either (l.is_int t) (Bounded-ok _ 1 n ts h) (value-Bounded n ts))

  mutual
    unfolding parse_expr

    pub parse_expr-Bounded :
        (f : ℕ) (ts : List String)
        → 3 * length ts + 3 ≤ f
        → Bounded 1 (length ts) (parse_expr l f ts)
    parse_expr-Bounded zero ts h = absurd (omega arith)
    parse_expr-Bounded (suc f) ts h =
        Bounded-bind 1 (parse_call_expr l f) (binary_loop l f) ts
          (parse_call_expr-Bounded f ts (omega arith))
          (λ left us q.
            Bounded-weaken 1 (length ts) (binary_loop-Bounded f left us (omega arith))
              (omega arith))

    binary_loop-Bounded :
        (f : ℕ) (left : AstNode) (ts : List String)
        → 3 * length ts + 1 ≤ f
        → Bounded 0 (length ts) (binary_loop l f left ts)
    binary_loop-Bounded zero left ts h = absurd (omega arith)
    binary_loop-Bounded (suc f) left ts h =
        either (is_one_of operators ts)
          (Bounded-bind 0 consume _ ts (consume-Bounded ts) (λ op us q.
            Bounded-bind 0 (parse_call_expr l f) _ us (parse_call_expr-Bounded f us (omega arith))
              (λ right vs r.
                Bounded-weaken 0 (length ts)
                  (binary_loop-Bounded f (binop_node op left right) vs (omega arith))
                  (omega arith))))
          (Bounded-ok left 0 (length ts) ts (omega arith))

    parse_call_expr-Bounded :
        (f : ℕ) (ts : List String)
        → 3 * length ts + 2 ≤ f
        → Bounded 1 (length ts) (parse_call_expr l f ts)
    parse_call_expr-Bounded zero ts h = absurd (omega arith)
    parse_call_expr-Bounded (suc f) ts h =
        either (is_one_of all_primitives ts)
          (Bounded-bind 1 consume _ ts (consume-Bounded ts) (λ primitive us q.
            Bounded-bind 1 (expect "(") _ us (expect-Bounded "(" us) (λ x vs r.
              Bounded-bind 1 (parse_args l f) _ vs (parse_args-Bounded f vs (omega arith))
                (λ args ws s.
                  Bounded-bind 1 (expect ")") _ ws (expect-Bounded ")" ws)
                    (λ y xs t. Bounded-ok _ 1 (length ts) xs (omega arith))))))
          (parse_atom-Bounded f ts (omega arith))

    parse_args-Bounded :
        (f : ℕ) (ts : List String)
        → 3 * length ts + 4 ≤ f
        → Bounded 0 (length ts) (parse_args l f ts)
    parse_args-Bounded zero ts h = absurd (omega arith)
    parse_args-Bounded (suc f) ts h =
        either (is_one_of (")" ∷ []) ts) (Bounded-ok nil 0 (length ts) ts (omega arith)) (
          Bounded-bind 0 (parse_expr l f) _ ts (parse_expr-Bounded f ts (omega arith)) (λ e us q.
            Bounded-weaken 0 (length ts) (more_args-Bounded f (cons e nil) us (omega arith))
              (omega arith)))

    more_args-Bounded :
        (f : ℕ) (args : Nodes) (ts : List String)
        → 3 * length ts + 1 ≤ f
        → Bounded 0 (length ts) (more_args l f args ts)
    more_args-Bounded zero args ts h = absurd (omega arith)
    more_args-Bounded (suc f) args ts h =
        either (is_one_of ("," ∷ []) ts)
          (Bounded-bind 0 (expect ",") _ ts (expect-Bounded "," ts) (λ x us q.
            Bounded-bind 0 (parse_expr l f) _ us (parse_expr-Bounded f us (omega arith)) (λ e vs r.
              Bounded-weaken 0 (length ts) (more_args-Bounded f (snoc_node args e) vs (omega arith))
                (omega arith))))
          (Bounded-ok args 0 (length ts) ts (omega arith))

    parse_atom-Bounded :
        (f : ℕ) (ts : List String)
        → 3 * length ts + 1 ≤ f
        → Bounded 1 (length ts) (parse_atom l f ts)
    parse_atom-Bounded zero ts h = absurd (omega arith)
    parse_atom-Bounded (suc f) [] h = Bounded-err 1 0 []
    parse_atom-Bounded (suc f) (t ∷ ts) h =
        either (t == "(")
          (Bounded-bind 1 (expect "(") _ (t ∷ ts) (expect-Bounded "(" (t ∷ ts)) (λ x us q.
            Bounded-bind 1 (parse_expr l f) _ us (parse_expr-Bounded f us (omega arith)) (λ e vs r.
              Bounded-bind 1 (expect ")") _ vs (expect-Bounded ")" vs)
                (λ y ws s. Bounded-ok e 1 (length (t ∷ ts)) ws (omega arith)))))
          (either (l.starts_digit t)
            (Bounded-bind 1 consume _ (t ∷ ts) (consume-Bounded (t ∷ ts))
              (λ v us q. number-Bounded v (length (t ∷ ts)) us q))
            (either (l.starts_alpha t)
              (Bounded-bind 1 consume _ (t ∷ ts) (consume-Bounded (t ∷ ts))
                (λ v us q. Bounded-ok _ 1 (length (t ∷ ts)) us q))
              (Bounded-err 1 (length (t ∷ ts)) (t ∷ ts))))

  Bounded-expression : (ts : List String) → Bounded 1 (length ts) (expression l ts)
  unfolding expression
  Bounded-expression ts = parse_expr-Bounded (3 * length ts + 3) ts (omega arith)

  initial_state-Bounded : (ts : List String) → Bounded 1 (length ts) (parse_initial_state l ts)
  unfolding parse_initial_state
  initial_state-Bounded ts =
      Bounded-bind 1 (expect "initial_state") _ ts (expect-Bounded "initial_state" ts) (λ x us p.
        Bounded-bind 1 (expect ":") _ us (expect-Bounded ":" us) (λ y vs q.
          Bounded-bind 1 (expression l) _ vs (Bounded-expression vs)
            (λ e ws r. Bounded-ok _ 1 (length ts) ws (omega arith))))

  compute-Bounded : (ts : List String) → Bounded 1 (length ts) (parse_compute l ts)
  unfolding parse_compute
  compute-Bounded ts =
      Bounded-bind 1 (expect "compute") _ ts (expect-Bounded "compute" ts) (λ x us p.
        Bounded-bind 1 (expect "(") _ us (expect-Bounded "(" us) (λ x vs q.
          Bounded-bind 1 consume _ vs (consume-Bounded vs) (λ x ws r.
            Bounded-bind 1 (expect ",") _ ws (expect-Bounded "," ws) (λ x us' s.
              Bounded-bind 1 consume _ us' (consume-Bounded us') (λ x vs' t.
                Bounded-bind 1 (expect ")") _ vs' (expect-Bounded ")" vs') (λ x ws' u.
                  Bounded-bind 1 (expect ":") _ ws' (expect-Bounded ":" ws') (λ x xs v.
                    Bounded-bind 1 (expression l) _ xs (Bounded-expression xs)
                      (λ e ys w. Bounded-ok _ 1 (length ts) ys (omega arith)))))))))

  function-Bounded : (ts : List String) → Bounded 1 (length ts) (parse_function l ts)
  unfolding parse_function
  function-Bounded ts = Bounded-bind 1 (expect "def") _ ts (expect-Bounded "def" ts) (λ x us p.
      Bounded-bind 1 consume _ us (consume-Bounded us) (λ name vs q.
        Bounded-bind 1 (expect ":") _ vs (expect-Bounded ":" vs) (λ y ws r.
          Bounded-bind 1 (parse_initial_state l) _ ws (initial_state-Bounded ws) (λ i us' s.
            Bounded-bind 1 (parse_compute l) _ us' (compute-Bounded us')
              (λ c vs' t. Bounded-ok _ 1 (length ts) vs' (omega arith))))))

  functions-Bounded :
      (f : ℕ) (ts : List String)
      → length ts + 1 ≤ f
      → Bounded 0 (length ts) (parse_functions l f ts)
  unfolding parse_functions
  functions-Bounded zero ts h = absurd (omega arith)
  functions-Bounded (suc f) [] h = Bounded-ok nil 0 0 [] (omega arith)
  functions-Bounded (suc f) (t ∷ ts) h =
      Bounded-bind 0 (parse_function l) _ (t ∷ ts) (function-Bounded (t ∷ ts)) (λ n us p.
        Bounded-bind 0 (parse_functions l f) _ us (functions-Bounded f us (omega arith))
          (λ ns vs q. Bounded-ok _ 0 (length (t ∷ ts)) vs (omega arith)))

  program-Bounded : (ts : List String) → Bounded 0 (length ts) (parse_program l ts)
  unfolding parse_program
  program-Bounded ts =
      Bounded-bind 0 (parse_functions l (length ts + 1)) _ ts
        (functions-Bounded (length ts + 1) ts (omega arith))
        (λ ns us p. Bounded-ok _ 0 (length ts) us (omega arith))

  finish_cases :
      (r : Result AstNode) (ts : List String)
      → ((e : Exc) → r ≡ err e → (e ≡ parser_error) ⊎ (e ≡ value_error))
      → ((n : AstNode) × (finish l (r, ts) ≡ ok n)) ⊎ (finish l (r, ts) ≡ err parser_error)
  unfolding finish as_parser_error
  finish_cases (ok n) [] h = inl (n, refl)
  finish_cases (ok n) (t ∷ ts) h = inr refl
  finish_cases (err e) ts h = elim (h e refl) [ inl p ↦ inr (rw p refl) | inr p ↦ inr (rw p refl) ]

  -- `parse_string` always returns. A text whose nesting stays within the interpreter's recursion
  -- limit is parsed to a program or is refused with a ParserError; the RecursionError of one that goes
  -- deeper leaves as it is. No other exception leaves.
  pub parse_string_total :
      (s : String)
      → ((l.is_too_deep (tokenize l s) ≡ false)
          × (((n : AstNode) × (parse_string l s ≡ ok n)) ⊎ (parse_string l s ≡ err parser_error)))
        ⊎ ((l.is_too_deep (tokenize l s) ≡ true) × (parse_string l s ≡ err recursion_error))
  unfolding parse_string as_parser_error
  parse_string_total s = elim (Bool-cases (l.is_too_deep (tokenize l s))) [
    | inl e ↦ inr (e, rw e refl)
    | inr e ↦
        let r = parse_program l (tokenize l s) in
        inl (e, rw e (finish_cases r.0 r.1 (program-Bounded (tokenize l s)).raises))
  ]
