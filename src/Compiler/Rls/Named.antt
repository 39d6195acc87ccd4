-- ===== src/Compiler/Rls/Named.antt =====
-- Which tables a FROM clause names without an alias, and that `collect_table_names` of
-- may_core/src/compiler/rls.rs finds them.
use maysemantic.Prelude.{refl, Text, List, Option, ℕ}
use mathlib.Core.List.{Memᴰ}
use mathlib.Core.List.Memᴰ
use maysemantic.Ast.Node
use maysemantic.Ast.Node.{Expr, JoinType, SqlNode, Nodes, OptNode, OptNodes, OrderByExpr}
use maysemantic.Compiler.Rls.{collect_table_names, table_name, join_table, join_tables}

module _ (t : Text) where
  -- one of the joins is of the table, under its own name
  pub data IsJoined : Nodes → Type 0 where
    joined :
        {joins : Nodes} (join_type : JoinType) (on : Expr)
        → IsJoined (Node.node (Node.join join_type (Node.table t) on) joins)
    further : {joins : Nodes} (j : SqlNode) → IsJoined joins → IsJoined (Node.node j joins)

  -- the table is the source of a FROM clause, or joined to it
  pub data IsNamed : SqlNode → Type 0 where
    as_source : {joins : Nodes} → IsNamed (Node.from (Node.table t) joins)
    in_join : {joins : Nodes} (source : SqlNode) → IsJoined joins → IsNamed (Node.from source joins)

  -- the tree is a query whose FROM clause names the table
  pub data IsQueried : SqlNode → Type 0 where
    queried :
        (ctes : OptNodes) (sel src : SqlNode) (w g h : OptNode) (o : List OrderByExpr)
        (l off : Option ℕ)
        → IsNamed src
        → IsQueried (Node.query ctes sel src w g h o l off)

  join_tables-IsJoined : {joins : Nodes} → IsJoined joins → Memᴰ t (join_tables joins)
  join_tables-IsJoined (joined join_type on) = Memᴰ.head refl
  join_tables-IsJoined (further j rest) =
      Memᴰ.append_right (join_table j) (join_tables-IsJoined rest)

  pub collect_table_names-IsNamed : {src : SqlNode} → IsNamed src → Memᴰ t (collect_table_names src)
  collect_table_names-IsNamed as_source = Memᴰ.head refl
  collect_table_names-IsNamed (in_join source rest) =
      Memᴰ.append_right (table_name source) (join_tables-IsJoined rest)
