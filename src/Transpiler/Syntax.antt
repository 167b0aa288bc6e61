-- ===== src/Transpiler/Syntax.antt =====
-- Python's syntax trees, as transpiler/python_ast_visitor.py tells them apart. A node that the visitor
-- has no method for keeps the name of its class, an operator that it has no case for the text that
-- formatting it gives, and a number the text that `str` gives.
use fcpp_bridge.Prelude.{String, Bool, Option, List}

pub data Operator : Type 0 where
  add sub mult div mod_op pow : Operator
  other_operator : String → Operator

pub data ComparisonOperator : Type 0 where
  lt gt eq not_eq lt_e gt_e : ComparisonOperator
  other_comparison : String → ComparisonOperator

pub data BoolOperator : Type 0 where
  and_op or_op : BoolOperator

pub data UnaryOperator : Type 0 where
  not_op u_sub u_add : UnaryOperator
  other_unary : String → UnaryOperator

pub data Constant : Type 0 where
  integer floating text : String → Constant
  boolean : Bool → Constant
  none_value : Constant
  other_constant : String → Constant

mutual
  pub data Expr : Type 0 where
    bin_op : Expr → Operator → Expr → Expr
    compare : Expr → Comparisons → Expr
    call : Expr → Exprs → Keywords → Expr
    constant : Constant → Expr
    name : String → Expr
    attribute : Expr → String → Expr
    subscript : Expr → Expr → Expr
    lambda : List String → Expr → Expr
    if_exp : Expr → Expr → Expr → Expr
    bool_op : BoolOperator → Exprs → Expr
    unary_op : UnaryOperator → Expr → Expr
    list_expr tuple set_expr : Exprs → Expr
    other_expr : String → Expr

  pub data Exprs : Type 0 where
    nil : Exprs
    cons : Expr → Exprs → Exprs

  -- zip(node.ops, node.comparators)
  pub data Comparisons : Type 0 where
    last : Comparisons
    chain : ComparisonOperator → Expr → Comparisons → Comparisons

  -- `none` is the name of a `**mapping` argument.
  pub data Keywords : Type 0 where
    no_keyword : Keywords
    keyword : Option String → Expr → Keywords → Keywords

-- An `as` pattern has a pattern and a name, or neither.
mutual
  pub data Pattern : Type 0 where
    match_value : Expr → Pattern
    match_or : Patterns → Pattern
    match_as : Patterns → Option String → Pattern
    other_pattern : String → Pattern

  pub data Patterns : Type 0 where
    no_pattern : Patterns
    alternative : Pattern → Patterns → Patterns

mutual
  pub data Stmt : Type 0 where
    expr_stmt : Expr → Stmt
    return_stmt : Option Expr → Stmt
    assign : List Expr → Expr → Stmt
    ann_assign : Expr → Option Expr → Stmt
    aug_assign : Expr → Operator → Expr → Stmt
    if_stmt : Expr → Stmts → Stmts → Stmt
    while_stmt : Expr → Stmts → Stmts → Stmt
    for_stmt : Expr → Expr → Stmts → Stmts → Stmt
    match_stmt : Expr → Cases → Stmt
    pass_stmt break_stmt continue_stmt : Stmt
    other_stmt : String → Stmt

  pub data Stmts : Type 0 where
    done : Stmts
    seq : Stmt → Stmts → Stmts

  -- The pattern, the guard and the body of each case
  pub data Cases : Type 0 where
    no_case : Cases
    case : Pattern → Option Expr → Stmts → Cases → Cases
