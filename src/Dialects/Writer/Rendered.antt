-- ===== src/Dialects/Writer/Rendered.antt =====
-- The trees that a dialect can write, as a description of them and not of the writers.
use maysemantic.Prelude.{Bool, true, false, ◌&&◌, all}
use maysemantic.Ast.Node
use maysemantic.Ast.Node.{Expr, Exprs, OrderByExpr, SqlNode, Nodes, OptNode, OptNodes}
use maysemantic.Dialects.Quote.{Dialect, snowflake, big_query, is_date_part}

unfoldable pub has_json : Dialect → Bool
has_json snowflake = true
has_json big_query = true
has_json d = false

unfoldable pub has_unnest : Dialect → Bool
has_unnest big_query = true
has_unnest d = false

unfoldable pub is_column : Expr → Bool
is_column (Node.column c) = true
is_column e = false

-- The expressions that a dialect can write: no semantic reference, a known date part over a plain
-- column, and JSON access and UNNEST where the dialect has them.
module _ (d : Dialect) where
  unfoldable mutual
    pub renders : Expr → Bool
    renders (Node.column c) = true
    renders (Node.literal v) = true
    renders (Node.binary_op l op r) = renders l && renders r
    renders (Node.function name args) = renders_all args
    renders (Node.date_trunc granularity col) = is_date_part granularity && is_column col
    renders (Node.cast e t) = renders e
    renders (Node.json_access col path) = has_json d && renders col
    renders (Node.unnest e) = has_unnest d && renders e
    renders (Node.dimension_ref m e n) = false
    renders (Node.measure_ref m e n) = false
    renders (Node.count_distinct e) = renders e
    renders Node.count_star = true
    renders (Node.raw sql) = true
    renders (Node.aliased e alias) = renders e

    pub renders_all : Exprs → Bool
    renders_all Node.nil = true
    renders_all (Node.cons e es) = renders e && renders_all es

  abbrev pub renders_order : OrderByExpr → Bool
  renders_order o = renders o.expr

  unfoldable mutual
    pub renders_node : SqlNode → Bool
    renders_node (Node.query ctes sel src w g h order limit offset) =
        renders_ctes ctes
        && (renders_node sel
            && (renders_node src
                && (renders_opt w
                    && (renders_opt g && (renders_opt h && all renders_order order)))))
    renders_node (Node.cte alias body) = renders_node body
    renders_node (Node.select es) = renders_all es
    renders_node (Node.from src joins) = renders_node src && renders_nodes joins
    renders_node (Node.join t relation on) = renders_node relation && renders on
    renders_node (Node.where_clause e) = renders e
    renders_node (Node.group_by es) = renders_all es
    renders_node (Node.having e) = renders e
    renders_node (Node.table t) = true
    renders_node (Node.aliased_table t alias) = true
    renders_node (Node.time_spine granularity) = true

    pub renders_nodes : Nodes → Bool
    renders_nodes Node.end = true
    renders_nodes (Node.node n ns) = renders_node n && renders_nodes ns

    pub renders_opt : OptNode → Bool
    renders_opt Node.absent = true
    renders_opt (Node.present n) = renders_node n

    pub renders_ctes : OptNodes → Bool
    renders_ctes Node.absent_list = true
    renders_ctes (Node.present_list ns) = renders_nodes ns
