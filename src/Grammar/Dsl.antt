-- ===== src/Grammar/Dsl.antt =====
-- The representation that `ast_to_dsl` makes of a call.
use fcpp_bridge.Prelude.{String, Option, ◌≡◌, refl}
use fcpp_bridge.Grammar.Nodes.{AstNode, Nodes, Value, ast_node, nil, cons, ast_to_dsl}

-- The representation of a call is that of the call with its first argument alone: all the others are
-- dropped.
pub ast_to_dsl-first_argument :
    (name : Option String) (value : Value) (a : AstNode) (ns : Nodes)
    → ast_to_dsl (ast_node "call" name value (cons a ns))
      ≡ ast_to_dsl (ast_node "call" name value (cons a nil))
unfolding ast_to_dsl
ast_to_dsl-first_argument name value a ns = refl
