-- ===== src/Ast/Node.antt =====
-- The abstract syntax tree of the SQL engine, may_core/src/ast/node.rs. A `Vec` of a type inside
-- that type, and an `Option<Box<_>>` of it, are types of the same block.
use maysemantic.Prelude.{ℕ, Text, Option, List}
use native.Mathlib.Decide.{ℕ_discrete}

pub data JoinType : Type 0 where
  inner left full : JoinType

abbrev pub TableIdent : Type 0
TableIdent = Text

abbrev pub ColumnIdent : Type 0
ColumnIdent = Text

mutual
  pub data Expr : Type 0 where
    column : ColumnIdent → Expr
    literal : Text → Expr
    binary_op : Expr → Text → Expr → Expr
    function : Text → Exprs → Expr
    date_trunc : Text → Expr → Expr
    cast : Expr → Text → Expr
    json_access : Expr → Text → Expr
    unnest : Expr → Expr
    dimension_ref : Option Text → Text → Text → Expr
    measure_ref : Option Text → Text → Text → Expr
    count_distinct : Expr → Expr
    count_star : Expr
    raw : Text → Expr
    aliased : Expr → Text → Expr

  -- `Vec<Expr>`
  pub data Exprs : Type 0 where
    nil : Exprs
    cons : Expr → Exprs → Exprs

pub data SortDirection : Type 0 where
  asc desc : SortDirection

pub record OrderByExpr : Type 0 where
  pub expr : Expr
  pub direction : SortDirection

mutual
  pub data SqlNode : Type 0 where
    query :
        OptNodes
        → SqlNode
        → SqlNode
        → OptNode
        → OptNode
        → OptNode
        → List OrderByExpr
        → Option ℕ
        → Option ℕ
        → SqlNode
    cte : TableIdent → SqlNode → SqlNode
    select : Exprs → SqlNode
    from : SqlNode → Nodes → SqlNode
    join : JoinType → SqlNode → Expr → SqlNode
    where_clause : Expr → SqlNode
    group_by : Exprs → SqlNode
    having : Expr → SqlNode
    table : TableIdent → SqlNode
    aliased_table : TableIdent → TableIdent → SqlNode
    time_spine : Text → SqlNode

  -- `Vec<SqlNode>`
  pub data Nodes : Type 0 where
    end : Nodes
    node : SqlNode → Nodes → Nodes

  -- `Option<Box<SqlNode>>`
  pub data OptNode : Type 0 where
    absent : OptNode
    present : SqlNode → OptNode

  -- `Option<Vec<SqlNode>>`
  pub data OptNodes : Type 0 where
    absent_list : OptNodes
    present_list : Nodes → OptNodes

pub Expr-discrete : Discrete Expr
Expr-discrete = hlevel ℕ_discrete
