-- ===== src/Grammar/Nodes.antt =====
-- `AstNode` (grammar/ast_node.py) and `ast_to_dsl` (grammar/aggregate_language_parser.py). The value of
-- a node is a text, or a number by the text that it was read from.
use fcpp_bridge.Prelude.{String, Bool, Option, ◌==◌, ◌||◌, string_key, if◌then◌else◌}
use fcpp_bridge.Ipc.Exec.{Result, ok, err, index_error}

pub data Value : Type 0 where
  no_value : Value
  text int_value float_value : String → Value

mutual
  -- node_type, name, value, children
  pub data AstNode : Type 0 where
    ast_node : String → Option String → Value → Nodes → AstNode

  pub data Nodes : Type 0 where
    nil : Nodes
    cons : AstNode → Nodes → Nodes

-- What `ast_to_dsl` returns: Python dicts, by their "type"
mutual
  pub data Dsl : Type 0 where
    dsl_program : DslList → Dsl
    dsl_function : Option String → Dsl → Dsl → Dsl
    dsl_binop : Value → Dsl → Dsl → Dsl
    dsl_call : Option String → DslList → Dsl
    dsl_atom : String → Value → Dsl
    dsl_other : String → DslList → Dsl

  pub data DslList : Type 0 where
    end : DslList
    item : Dsl → DslList → DslList

-- ast_to_dsl; `ast.children[i]` raises an IndexError where there is no such child.
abbrev pub bind_dsl {ℓ κ} : {A : Type ℓ} {B : Type κ} → Result A → (A → Result B) → Result B
bind_dsl (ok a) f = f a
bind_dsl (err e) f = err e

abbrev pub is_atom : String → Bool
is_atom t = (t == "int") || ((t == "float") || ((t == "name") || (t == "string")))

unfoldable mutual
  pub ast_to_dsl : AstNode → Result Dsl
  ast_to_dsl (ast_node t name value children) =
      if t == "program"
      then bind_dsl (all_to_dsl children) (λ fs. ok (dsl_program fs))
      else if t == "function"
      then pair_to_dsl (dsl_function name) children
      else if t == "binop"
      then pair_to_dsl (dsl_binop value) children
      else if t == "call"
      then bind_dsl (first_to_dsl children) (λ arg. ok (dsl_call name arg))
      else if is_atom t
      then ok (dsl_atom t value)
      else bind_dsl (all_to_dsl children) (λ cs. ok (dsl_other t cs))

  -- [ast_to_dsl(c) for c in children]
  pub all_to_dsl : Nodes → Result DslList
  all_to_dsl nil = ok end
  all_to_dsl (cons n ns) =
      bind_dsl (ast_to_dsl n) (λ d. bind_dsl (all_to_dsl ns) (λ ds. ok (item d ds)))

  -- Of the first two children
  pub pair_to_dsl : (Dsl → Dsl → Dsl) → Nodes → Result Dsl
  pair_to_dsl make (cons a (cons b ns)) =
      bind_dsl (ast_to_dsl a) (λ x. bind_dsl (ast_to_dsl b) (λ y. ok (make x y)))
  pair_to_dsl make (cons a nil) = bind_dsl (ast_to_dsl a) (λ x. err index_error)
  pair_to_dsl make nil = err index_error

  -- ast_to_dsl(children[0]) if children else None; `end` is None.
  pub first_to_dsl : Nodes → Result DslList
  first_to_dsl nil = ok end
  first_to_dsl (cons n ns) = bind_dsl (ast_to_dsl n) (λ d. ok (item d end))
