-- ===== src/Grammar/Operators.antt =====
-- How the parser groups operands that operators join.
use fcpp_bridge.Prelude.{
  ℕ, zero, suc, ◌+◌, ◌*◌, ◌≤◌, String, true, false, none, List, [], ◌∷◌, ◌≡◌, refl, arith, ◌==◌,
  string_key, length,
}
use fcpp_bridge.Ipc.Exec.{ok}
use fcpp_bridge.Transpiler.Visitor.{member}
use fcpp_bridge.Grammar.Nodes.{AstNode, ast_node, text, nil}
use fcpp_bridge.Grammar.Parser.{
  Lexer, consume, parse_expr, binary_loop, parse_call_expr, is_one_of, operators, all_primitives,
  binop_node, expression,
}

abbrev pub name_node : String → AstNode
name_node t = ast_node "name" none (text t) nil

-- A token that `_parse_atom` takes for a name
pub record IsName (l : Lexer) (t : String) : Type 0 where
  pub no_primitive : member t all_primitives ≡ false
  pub no_paren : (t == "(") ≡ false
  pub no_digit : l.starts_digit t ≡ false
  pub alpha : l.starts_alpha t ≡ true

-- Operators, each with the operand at its right
abbrev pub tokens_of : List (String × String) → List String
tokens_of [] = []
tokens_of ((o, t) ∷ r) = o ∷ t ∷ tokens_of r

-- The operands from left to right, without any precedence
unfoldable pub group_left : AstNode → List (String × String) → AstNode
group_left left [] = left
group_left left ((o, t) ∷ r) = group_left (binop_node o left (name_node t)) r

abbrev pub Joined : Lexer → List (String × String) → Type 0
Joined l [] = Unit
Joined l ((o, t) ∷ r) = (member o operators ≡ true) × IsName l t × Joined l r

module _ (l : Lexer) where
  call_name :
      (f : ℕ) (t : String) (ts : List String)
      → IsName l t
      → parse_call_expr l (suc (suc f)) (t ∷ ts) ≡ (ok (name_node t), ts)
  unfolding parse_call_expr is_one_of consume
  call_name f t ts n = ground arith

  loop-Joined :
      (f : ℕ) (left : AstNode) (r : List (String × String))
      → length r + 3 ≤ f
      → Joined l r
      → binary_loop l f left (tokens_of r) ≡ (ok (group_left left r), [])
  unfolding binary_loop is_one_of consume group_left
  loop-Joined zero left r h j = absurd (omega arith)
  loop-Joined (suc f) left [] h j = refl
  loop-Joined (suc zero) left ((o, t) ∷ r) h j = absurd (omega arith)
  loop-Joined (suc (suc zero)) left ((o, t) ∷ r) h j = absurd (omega arith)
  loop-Joined (suc (suc (suc f))) left ((o, t) ∷ r) h (m, n, j) = ground (
    arith,
    m,
    call_name f t (tokens_of r) n,
    loop-Joined (suc (suc f)) (binop_node o left (name_node t)) r (omega arith) j,
  )

  length-tokens_of : (r : List (String × String)) → length (tokens_of r) ≡ 2 * length r
  length-tokens_of [] = refl
  length-tokens_of ((o, t) ∷ r) = omega (arith, length-tokens_of r)

  expr-Joined :
      (f : ℕ) (t : String) (r : List (String × String))
      → length r + 4 ≤ f
      → IsName l t
      → Joined l r
      → parse_expr l f (t ∷ tokens_of r) ≡ (ok (group_left (name_node t) r), [])
  unfolding parse_expr
  expr-Joined zero t r h n j = absurd (omega arith)
  expr-Joined (suc zero) t r h n j = absurd (omega arith)
  expr-Joined (suc (suc zero)) t r h n j = absurd (omega arith)
  expr-Joined (suc (suc (suc f))) t r h n j =
      rw (call_name f t (tokens_of r) n) (loop-Joined (suc (suc f)) (name_node t) r (omega arith) j)

  -- Names that operators join are grouped from the left, whichever the operators are: `a + b * c` is
  -- read as `(a + b) * c`.
  pub expression-Joined :
      (t : String) (r : List (String × String))
      → IsName l t
      → Joined l r
      → expression l (t ∷ tokens_of r) ≡ (ok (group_left (name_node t) r), [])
  unfolding expression
  expression-Joined t r n j =
      expr-Joined (3 * length (t ∷ tokens_of r) + 3) t r (omega (arith, length-tokens_of r)) n j
