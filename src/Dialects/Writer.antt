-- ===== src/Dialects/Writer.antt =====
-- The recursive writers, may_core/src/dialects/core.rs: the buffer is passed and returned. What
-- an error message says is kept as data, and not as text.
pub mod Rendered
pub mod Renders
use maysemantic.Prelude.{
  ℕ, Text, str, Bool, true, false, Option, none, some, List, [], ◌∷◌, ◌++◌, if◌then◌else◌, Result,
  ok, err, ◌>>=◌, show_nat,
}
use maysemantic.Ast.Node
use maysemantic.Ast.Node.{
  Expr, Exprs, OrderByExpr, SortDirection, JoinType, SqlNode, Nodes, OptNode, OptNodes,
}
use maysemantic.Dialects.Quote.{
  Dialect, postgres, snowflake, big_query, quote_identifier, quote_schema_qualified,
  write_date_trunc, is_date_part, write_sql_string_literal,
}

pub data ExprIssue : Type 0 where
  dimension_ref_left measure_ref_left : Text → Text → ExprIssue
  bad_granularity : Text → ExprIssue
  trunc_of_no_column json_access_missing unnest_missing : ExprIssue

pub data DialectError : Type 0 where
  unsupported_ast_node : Text → DialectError
  unsupported_expr : ExprIssue → DialectError
  format_error : DialectError

-- A writer takes the buffer and returns it.
abbrev pub Writer : Type 0
Writer = Text → Result DialectError Text

abbrev issue : ExprIssue → Result DialectError Text
issue i = err (unsupported_expr i)

-- The hooks of the trait that call `write_expr` back take that call as an argument.
pub write_cast_expr : Dialect → Writer → Text → Writer
write_cast_expr postgres write target_type buf = do
  b ← write buf
  ok (b ++ (str "::" ++ target_type))
write_cast_expr d write target_type buf = do
  b ← write (buf ++ str "CAST(")
  ok (b ++ (str " AS " ++ (target_type ++ str ")")))

pub write_json_access : Dialect → Writer → Text → Writer
write_json_access snowflake write path buf = do
  b ← write (buf ++ str "GET_PATH(")
  ok (write_sql_string_literal (b ++ str ", ") path ++ str ")")
write_json_access big_query write path buf = do
  b ← write (buf ++ str "JSON_EXTRACT_SCALAR(")
  ok (write_sql_string_literal (b ++ str ", ") path ++ str ")")
write_json_access d write path buf = issue json_access_missing

pub write_unnest_expr : Dialect → Writer → Writer
write_unnest_expr big_query write buf = do b ← write (buf ++ str "UNNEST("); ok (b ++ str ")")
write_unnest_expr d write buf = issue unnest_missing

date_trunc_of : Dialect → Text → Expr → Writer
date_trunc_of d granularity (Node.column c) buf = ok (write_date_trunc d granularity c buf)
date_trunc_of d granularity other buf = issue trunc_of_no_column

abbrev pub comma : Bool → Text → Text
comma first buf = if first then buf else buf ++ str ", "

module _ (d : Dialect) where
  unfoldable mutual
    unfolding write_cast_expr write_json_access write_unnest_expr date_trunc_of

    pub write_expr : Expr → Writer
    write_expr (Node.column c) buf = ok (buf ++ quote_schema_qualified d c)
    write_expr (Node.literal val) buf = ok (buf ++ val)
    write_expr (Node.binary_op left op right) buf = do
      b ← write_expr left buf
      write_expr right (b ++ (str " " ++ (op ++ str " ")))
    write_expr (Node.function name args) buf = do
      b ← write_exprs true args (buf ++ (name ++ str "("))
      ok (b ++ str ")")
    write_expr (Node.date_trunc granularity col) buf =
        if is_date_part granularity
        then date_trunc_of d granularity col buf
        else issue (bad_granularity granularity)
    write_expr (Node.cast e target_type) buf = write_cast_expr d (write_expr e) target_type buf
    write_expr (Node.json_access col path) buf = write_json_access d (write_expr col) path buf
    write_expr (Node.unnest e) buf = write_unnest_expr d (write_expr e) buf
    write_expr (Node.dimension_ref model entity dimension) buf =
        issue (dimension_ref_left entity dimension)
    write_expr (Node.measure_ref model entity measure) buf = issue (measure_ref_left entity measure)
    write_expr (Node.raw sql) buf = ok (buf ++ sql)
    write_expr (Node.count_distinct inner) buf = do
      b ← write_expr inner (buf ++ str "COUNT(DISTINCT ")
      ok (b ++ str ")")
    write_expr Node.count_star buf = ok (buf ++ str "COUNT(*)")
    write_expr (Node.aliased e alias) buf = do
      b ← write_expr e buf
      ok (b ++ (str " AS " ++ quote_identifier d alias))

    -- a list between commas; the flag says that the next is the first
    pub write_exprs : Bool → Exprs → Writer
    write_exprs first Node.nil buf = ok buf
    write_exprs first (Node.cons e es) buf = do
      b ← write_expr e (comma first buf)
      write_exprs false es b

  direction_name : SortDirection → Text
  direction_name SortDirection.asc = str " ASC"
  direction_name SortDirection.desc = str " DESC"

  pub write_order_list : Bool → List OrderByExpr → Writer
  unfolding direction_name
  write_order_list first [] buf = ok buf
  write_order_list first (o ∷ os) buf = do
    b ← write_expr o.expr (comma first buf)
    write_order_list false os (b ++ direction_name o.direction)

  pub write_order : List OrderByExpr → Writer
  unfolding write_order_list
  write_order [] buf = ok buf
  write_order (o ∷ os) buf = write_order_list true (o ∷ os) (buf ++ str " ORDER BY ")

  pub write_number : Text → Option ℕ → Text → Text
  write_number word none buf = buf
  write_number word (some n) buf = buf ++ (word ++ show_nat n)

  pub join_word : JoinType → Text
  join_word JoinType.inner = str "INNER JOIN "
  join_word JoinType.left = str "LEFT JOIN "
  join_word JoinType.full = str "FULL JOIN "

  unfoldable mutual
    unfolding write_order write_number join_word

    pub write_node : SqlNode → Writer
    write_node (Node.query ctes sel src where_ group_by having order_by limit offset) buf = do
      b₁ ← write_ctes ctes buf
      b₂ ← write_node sel b₁
      b₃ ← write_node src (b₂ ++ str " ")
      b₄ ← write_opt where_ b₃
      b₅ ← write_opt group_by b₄
      b₆ ← write_opt having b₅
      b₇ ← write_order order_by b₆
      ok (write_number (str " OFFSET ") offset (write_number (str " LIMIT ") limit b₇))
    write_node (Node.cte alias body) buf = do
      b ← write_node body (buf ++ (quote_identifier d alias ++ str " AS ("))
      ok (b ++ str ")")
    write_node (Node.select exprs) buf = write_exprs true exprs (buf ++ str "SELECT ")
    write_node (Node.from source joins) buf = do
      b ← write_node source (buf ++ str "FROM ")
      write_joins joins b
    write_node (Node.join join_type relation on) buf = do
      b ← write_node relation (buf ++ join_word join_type)
      write_expr on (b ++ str " ON ")
    write_node (Node.where_clause e) buf = write_expr e (buf ++ str "WHERE ")
    write_node (Node.group_by exprs) buf = write_exprs true exprs (buf ++ str "GROUP BY ")
    write_node (Node.having e) buf = write_expr e (buf ++ str "HAVING ")
    write_node (Node.table t) buf = ok (buf ++ quote_schema_qualified d t)
    write_node (Node.aliased_table t alias) buf =
        ok (buf ++ (quote_schema_qualified d t ++ (str " AS " ++ quote_identifier d alias)))
    write_node (Node.time_spine granularity) buf =
        ok (buf ++ quote_identifier d (str "time_spine_" ++ granularity))

    -- an optional clause behind a space
    pub write_opt : OptNode → Writer
    write_opt Node.absent buf = ok buf
    write_opt (Node.present n) buf = write_node n (buf ++ str " ")

    pub write_joins : Nodes → Writer
    write_joins Node.end buf = ok buf
    write_joins (Node.node n ns) buf = do b ← write_node n (buf ++ str " "); write_joins ns b

    pub write_cte_list : Bool → Nodes → Writer
    write_cte_list first Node.end buf = ok buf
    write_cte_list first (Node.node n ns) buf = do
      b ← write_node n (comma first buf)
      write_cte_list false ns b

    pub write_ctes : OptNodes → Writer
    write_ctes Node.absent_list buf = ok buf
    write_ctes (Node.present_list Node.end) buf = ok buf
    write_ctes (Node.present_list (Node.node n ns)) buf = do
      b₁ ← write_node n (buf ++ str "WITH ")
      b₂ ← write_cte_list false ns b₁
      ok (b₂ ++ str " ")

  unfoldable pub generate_sql : SqlNode → Result DialectError Text
  generate_sql ast = write_node ast []
