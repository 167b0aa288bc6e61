-- ===== src/Grammar/Examples.antt =====
-- The parser with a lexer that gives fixed tokens.
use fcpp_bridge.Grammar.Parser.{tokenize}
use fcpp_bridge.Grammar.Operators.{group_left}
use fcpp_bridge.Grammar.Parser.{all_primitives, consume, expect, is_one_of, parse_function}
use fcpp_bridge.Transpiler.Visitor.{member}
use fcpp_bridge.Prelude.{
  true, String, false, none, some, List, [], ◌∷◌, ◌≡◌, refl, ◌⊎◌, ◌==◌, string_key, ◌||◌,
}
use fcpp_bridge.Ipc.Exec.{ok, err, parser_error, recursion_error}
use fcpp_bridge.Grammar.Nodes.{AstNode, ast_node, no_value, nil, cons}
use fcpp_bridge.Grammar.Parser.{Lexer, expression, parse_string, binop_node}
use fcpp_bridge.Grammar.Fuel.{parse_string_total}
use fcpp_bridge.Grammar.Operators.{IsName, expression-Joined, name_node}

-- def f : initial_state : a compute ( s , n ) : a + b * c
abbrev sample_tokens : List String
sample_tokens =
    "def" ∷ "f" ∷ ":" ∷ "initial_state" ∷ ":" ∷ "a" ∷ "compute" ∷ "(" ∷ "s" ∷ "," ∷ "n" ∷ ")" ∷ ":"
    ∷ "a" ∷ "+" ∷ "b" ∷ "*" ∷ "c" ∷ []

abbrev letters : Lexer
letters = record {
  find_all = λ s. sample_tokens;
  matches = λ k t. false;
  starts_digit = λ t. false;
  starts_alpha = λ t. (t == "a") || ((t == "b") || (t == "c"));
  has_dot = λ t. false;
  is_int = λ t. false;
  is_float = λ t. false;
  is_too_deep = λ ts. false;
}

a_IsName : IsName letters "a"
unfolding member all_primitives
a_IsName = record { no_primitive = refl; no_paren = refl; no_digit = refl; alpha = refl }

b_IsName : IsName letters "b"
unfolding member all_primitives
b_IsName = record { no_primitive = refl; no_paren = refl; no_digit = refl; alpha = refl }

c_IsName : IsName letters "c"
unfolding member all_primitives
c_IsName = record { no_primitive = refl; no_paren = refl; no_digit = refl; alpha = refl }

expression-Joined_example :
    expression letters ("a" ∷ "+" ∷ "b" ∷ "*" ∷ "c" ∷ [])
    ≡ (ok (binop_node "*" (binop_node "+" (name_node "a") (name_node "b")) (name_node "c")), [])
unfolding member group_left
expression-Joined_example =
    expression-Joined letters "a" (("+", "b") ∷ ("*", "c") ∷ []) a_IsName
      (refl, b_IsName, (refl, c_IsName, tt))

sample_program :
    parse_string letters "sample"
    ≡ ok (
        ast_node "program" none no_value (
          cons
            (ast_node "function" (some "f") no_value (
              cons (ast_node "initial_state" none no_value (cons (name_node "a") nil)) (
                cons
                  (ast_node "compute" none no_value (
                    cons
                      (binop_node "*"
                        (binop_node "+" (name_node "a") (name_node "b"))
                        (name_node "c"))
                      nil))
                  nil)))
            nil))
unfolding parse_string parse_function expect consume is_one_of member all_primitives tokenize
sample_program = refl

parse_string_total_example :
    ((letters.is_too_deep (tokenize letters "sample") ≡ false)
      × (((n : AstNode) × (parse_string letters "sample" ≡ ok n))
          ⊎ (parse_string letters "sample" ≡ err parser_error)))
    ⊎ ((letters.is_too_deep (tokenize letters "sample") ≡ true)
        × (parse_string letters "sample" ≡ err recursion_error))
parse_string_total_example = parse_string_total letters "sample"
