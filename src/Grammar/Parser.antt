-- ===== src/Grammar/Parser.antt =====
-- `AggregateLanguageParser` (grammar/aggregate_language_parser.py) on a list of tokens. The state is
-- what of the tokens is left from `pos` on. The regular expressions of `re`, Python's tests of characters
-- and its readings of numbers are a parameter.
use fcpp_bridge.Prelude.{
  ℕ, zero, suc, ◌+◌, ◌*◌, String, Bool, true, false, Option, none, some, List, [], ◌∷◌, ◌==◌, ◌||◌,
  string_key, if◌then◌else◌, length,
}
use fcpp_bridge.Ipc.Exec.{
  Exc, Result, ok, err, Exec, parser_error, value_error, index_error, recursion_error, other, pure,
  raise, gets, ◌>>=◌, ◌>>◌,
}
use fcpp_bridge.Transpiler.Visitor.{member}
use fcpp_bridge.Grammar.Nodes.{
  AstNode, Nodes, no_value, text, int_value, float_value, ast_node, nil, cons,
}

pub record Lexer : Type 0 where
  -- The texts that re.finditer finds for the joined patterns of `_tokenize`, and re.match of a text
  -- with one of them, by its place
  pub find_all : String → List String
  pub matches : ℕ → String → Bool
  -- token[0].isdigit(), token[0].isalpha(), "." in token
  pub starts_digit : String → Bool
  pub starts_alpha : String → Bool
  pub has_dot : String → Bool
  -- int(token), float(token); false for a ValueError
  pub is_int : String → Bool
  pub is_float : String → Bool
  -- Does the recursion on these tokens go deeper than the interpreter's limit?
  pub is_too_deep : List String → Bool

abbrev pub P : Type 0 → Type 0
P A = Exec (List String) A

-- Is the first pattern that matches the text one of the first two, COMMENT and WHITESPACE?
unfoldable pub is_skipped : Lexer → String → Bool
is_skipped l t = l.matches 0 t || l.matches 1 t

unfoldable pub keep_tokens : Lexer → List String → List String
keep_tokens l [] = []
keep_tokens l (t ∷ ts) = if is_skipped l t then keep_tokens l ts else t ∷ keep_tokens l ts

-- _tokenize
unfoldable pub tokenize : Lexer → String → List String
unfolding keep_tokens is_skipped
tokenize l s = keep_tokens l (l.find_all s)

abbrev pub operators : List String
operators = "+" ∷ "-" ∷ "*" ∷ "/" ∷ "==" ∷ "!=" ∷ "<" ∷ ">" ∷ []

-- _ALL_PRIMITIVES
unfoldable pub all_primitives : List String
all_primitives =
    "nbr" ∷ "old" ∷ "nbr_uid" ∷ "oldnbr" ∷ "align" ∷ "align_inplace" ∷ "mod_other" ∷ "split"
    ∷ "fold_hood" ∷ "count_hood" ∷ "spawn" ∷ "min_hood" ∷ "max_hood" ∷ "sum_hood" ∷ "mean_hood"
    ∷ "all_hood" ∷ "any_hood" ∷ "list_hood" ∷ "abf_distance" ∷ "abf_hops" ∷ "bis_distance"
    ∷ "flex_distance" ∷ "broadcast" ∷ "bis_ksource_broadcast" ∷ "gossip" ∷ "gossip_min"
    ∷ "gossip_max" ∷ "gossip_mean" ∷ "sp_collection" ∷ "mp_collection" ∷ "wmp_collection"
    ∷ "list_idem_collection" ∷ "list_arith_collection" ∷ "follow_target" ∷ "follow_path"
    ∷ "follow_track" ∷ "random_rectangle_target" ∷ "rectangle_walk" ∷ "neighbour_elastic_force"
    ∷ "neighbour_gravitational_force" ∷ "neighbour_charged_force" ∷ "line_elastic_force"
    ∷ "plane_elastic_force" ∷ "point_elastic_force" ∷ "point_gravitational_force"
    ∷ "diameter_election" ∷ "diameter_election_distance" ∷ "color_election"
    ∷ "color_election_distance" ∷ "wave_election" ∷ "wave_election_distance" ∷ "constant"
    ∷ "constant_after" ∷ "counter" ∷ "delay" ∷ "round_since" ∷ "time_since" ∷ "timed_decay"
    ∷ "exponential_filter" ∷ "shared_clock" ∷ "shared_decay" ∷ "shared_filter" ∷ "toggle"
    ∷ "toggle_filter" ∷ []

abbrev pub first : List String → Option String
first [] = none
first (t ∷ ts) = some t

-- _current_token
abbrev pub current_token : P (Option String)
current_token = gets first

-- self._current_token() in names
unfoldable pub is_one_of : List String → List String → Bool
is_one_of names [] = false
is_one_of names (t ∷ ts) = member t names

-- _consume()
unfoldable pub consume : P String
consume [] = (err parser_error, [])
consume (t ∷ ts) = (ok t, ts)

-- _consume(expected)
unfoldable pub expect : String → P String
expect e [] = (err parser_error, [])
expect e (t ∷ ts) = if t == e then (ok t, ts) else (err parser_error, t ∷ ts)

-- A number that a token starts with a digit of
unfoldable pub number_node : Lexer → String → P AstNode
number_node l t ts = elim (l.has_dot t) [
  | true ↦ elim (l.is_float t) [
    | true ↦ (ok (ast_node "float" none (float_value t) nil), ts)
    | false ↦ (err value_error, ts)
  ]
  | false ↦ elim (l.is_int t) [
    | true ↦ (ok (ast_node "int" none (int_value t) nil), ts)
    | false ↦ (err value_error, ts)
  ]
]

abbrev pub binop_node : String → AstNode → AstNode → AstNode
binop_node op left right = ast_node "binop" none (text op) (cons left (cons right nil))

-- The model ran out of fuel.
abbrev pub exhausted : Exc
exhausted = other 0

-- The children of a node, in order
abbrev pub snoc_node : Nodes → AstNode → Nodes
snoc_node nil n = cons n nil
snoc_node (cons m ms) n = cons m (snoc_node ms n)

module _ (l : Lexer) where
  unfoldable mutual
    -- _parse_expr and _parse_binary_expr
    pub parse_expr : ℕ → P AstNode
    parse_expr zero = raise exhausted
    parse_expr (suc f) = do left ← parse_call_expr f; binary_loop f left

    -- The loop of _parse_binary_expr
    pub binary_loop : ℕ → AstNode → P AstNode
    binary_loop zero left ts = raise exhausted ts
    binary_loop (suc f) left ts = elim (is_one_of operators ts) [
      | false ↦ (ok left, ts)
      | true ↦
          (do op ← consume; right ← parse_call_expr f; binary_loop f (binop_node op left right)) ts
    ]

    pub parse_call_expr : ℕ → P AstNode
    parse_call_expr zero ts = raise exhausted ts
    parse_call_expr (suc f) ts = elim (is_one_of all_primitives ts) [
      | false ↦ parse_atom f ts
      | true ↦
          (do
            primitive ← consume
            expect "("
            args ← parse_args f
            expect ")"
            pure (ast_node "call" (some primitive) no_value args))
            ts
    ]

    -- The arguments before the closing parenthesis
    pub parse_args : ℕ → P Nodes
    parse_args zero ts = raise exhausted ts
    parse_args (suc f) ts = elim (is_one_of (")" ∷ []) ts) [
      | true ↦ (ok nil, ts)
      | false ↦ (do e ← parse_expr f; more_args f (cons e nil)) ts
    ]

    pub more_args : ℕ → Nodes → P Nodes
    more_args zero args ts = raise exhausted ts
    more_args (suc f) args ts = elim (is_one_of ("," ∷ []) ts) [
      | false ↦ (ok args, ts)
      | true ↦ (do expect ","; e ← parse_expr f; more_args f (snoc_node args e)) ts
    ]

    pub parse_atom : ℕ → P AstNode
    parse_atom zero ts = raise exhausted ts
    parse_atom (suc f) [] = (err parser_error, [])
    parse_atom (suc f) (t ∷ ts) = elim (t == "(") [
      | true ↦ (do expect "("; e ← parse_expr f; expect ")"; pure e) (t ∷ ts)
      | false ↦ elim (l.starts_digit t) [
        | true ↦ (do value ← consume; number_node l value) (t ∷ ts)
        | false ↦ elim (l.starts_alpha t) [
          | true ↦ (do name ← consume; pure (ast_node "name" none (text name) nil)) (t ∷ ts)
          | false ↦ (err parser_error, t ∷ ts)
        ]
      ]
    ]

  -- Enough fuel for an expression at the head of the tokens
  abbrev pub fuel_for : List String → ℕ
  fuel_for ts = 3 * length ts + 3

  unfoldable pub expression : P AstNode
  unfolding parse_expr
  expression ts = parse_expr (fuel_for ts) ts

  unfoldable pub parse_initial_state : P AstNode
  unfolding expression
  parse_initial_state = do
    expect "initial_state"
    expect ":"
    e ← expression
    pure (ast_node "initial_state" none no_value (cons e nil))

  unfoldable pub parse_compute : P AstNode
  unfolding expression
  parse_compute = do
    expect "compute"
    expect "("
    consume
    expect ","
    consume
    expect ")"
    expect ":"
    e ← expression
    pure (ast_node "compute" none no_value (cons e nil))

  unfoldable pub parse_function : P AstNode
  unfolding parse_initial_state parse_compute
  parse_function = do
    expect "def"
    name ← consume
    expect ":"
    i ← parse_initial_state
    c ← parse_compute
    pure (ast_node "function" (some name) no_value (cons i (cons c nil)))

  -- The loop of _parse_program
  unfoldable pub parse_functions : ℕ → P Nodes
  parse_functions zero ts = raise exhausted ts
  parse_functions (suc f) [] = (ok nil, [])
  parse_functions (suc f) (t ∷ ts) =
      (do n ← parse_function; ns ← parse_functions f; pure (cons n ns)) (t ∷ ts)

  unfoldable pub parse_program : P AstNode
  unfolding parse_functions
  parse_program ts =
      (do ns ← parse_functions (length ts + 1); pure (ast_node "program" none no_value ns)) ts

  -- `except (IndexError, ValueError)` of parse_string
  unfoldable pub as_parser_error : Exc → Exc
  as_parser_error index_error = parser_error
  as_parser_error value_error = parser_error
  as_parser_error e = e

  unfoldable pub finish : Result AstNode × List String → Result AstNode
  unfolding as_parser_error
  finish (err e, ts) = err (as_parser_error e)
  finish (ok n, []) = ok n
  finish (ok n, t ∷ ts) = err parser_error

  -- A RecursionError is a RuntimeError, and comes before any other outcome.
  unfoldable pub parse_string : String → Result AstNode
  unfolding finish parse_program as_parser_error
  parse_string s =
      let tokens = tokenize l s in
      if l.is_too_deep tokens
      then err (as_parser_error recursion_error)
      else finish (parse_program tokens)
