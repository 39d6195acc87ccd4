-- ===== src/Dialects/Writer/Renders.antt =====
-- Exactly when the writers succeed.
use maysemantic.Prelude.{
  ◌>>=◌, is_ok-map, str, ◌++◌, Bool, true, false, ◌&&◌, Text, List, [], ◌∷◌, ◌≡◌, refl, ok, arith,
  all, is_ok, is_ok-bind,
}
use maysemantic.Ast.Node
use maysemantic.Ast.Node.{Expr, Exprs, OrderByExpr, SqlNode, Nodes, OptNode, OptNodes}
use maysemantic.Dialects.Quote.{
  quote_identifier, Dialect, postgres, snowflake, big_query, is_date_part,
}
use maysemantic.Dialects.Writer.Rendered.{
  has_json, has_unnest, is_column, renders, renders_all, renders_order, renders_node, renders_nodes,
  renders_opt, renders_ctes,
}
use maysemantic.Dialects.Writer.{
  write_number, write_expr, write_exprs, write_order_list, write_order, write_node, write_opt,
  write_joins, write_cte_list, write_ctes, generate_sql, Writer, comma, join_word, write_cast_expr,
  write_json_access, write_unnest_expr,
}

-- The clauses of a query, one after the other.
module _ (w₁ w₂ w₃ w₄ w₅ w₆ w₇ : Writer) (space : Text) (last : Text → Text)
    {p₁ p₂ p₃ p₄ p₅ p₆ p₇ : Bool} where
  is_ok-clauses :
      ((b : Text) → is_ok (w₁ b) ≡ p₁)
      → ((b : Text) → is_ok (w₂ b) ≡ p₂)
      → ((b : Text) → is_ok (w₃ b) ≡ p₃)
      → ((b : Text) → is_ok (w₄ b) ≡ p₄)
      → ((b : Text) → is_ok (w₅ b) ≡ p₅)
      → ((b : Text) → is_ok (w₆ b) ≡ p₆)
      → ((b : Text) → is_ok (w₇ b) ≡ p₇)
      → (buf : Text)
      → is_ok (do
        b₁ ← w₁ buf
        b₂ ← w₂ b₁
        b₃ ← w₃ (b₂ ++ space)
        b₄ ← w₄ b₃
        b₅ ← w₅ b₄
        b₆ ← w₆ b₅
        b₇ ← w₇ b₆
        ok (last b₇))
        ≡ (p₁ && (p₂ && (p₃ && (p₄ && (p₅ && (p₆ && p₇))))))
  is_ok-clauses h₁ h₂ h₃ h₄ h₅ h₆ h₇ buf = is_ok-bind (w₁ buf) _ _ _ (h₁ buf) λ b₁.
      is_ok-bind (w₂ b₁) _ _ _ (h₂ b₁) λ b₂. is_ok-bind (w₃ (b₂ ++ space)) _ _ _ (h₃ _) λ b₃.
        is_ok-bind (w₄ b₃) _ _ _ (h₄ b₃) λ b₄.
          is_ok-bind (w₅ b₄) _ _ _ (h₅ b₄)
            λ b₅. is_ok-bind (w₆ b₅) _ _ _ (h₆ b₅) λ b₆. is_ok-map (w₇ b₆) _ _ (h₇ b₆)

is_ok-date_trunc :
    (d : Dialect) (g : Text) (col : Expr) (buf : Text)
    → is_ok (write_expr d (Node.date_trunc g col) buf) ≡ (is_date_part g && is_column col)
unfolding write_expr is_column
is_ok-date_trunc d g (Node.column c) buf = ground arith
is_ok-date_trunc d g col buf = ground arith

is_ok-cast :
    (d : Dialect) (write : Writer) (p : Bool) (t buf : Text)
    → ((b : Text) → is_ok (write b) ≡ p)
    → is_ok (write_cast_expr d write t buf) ≡ p
unfolding write_cast_expr
is_ok-cast postgres write p t buf h = ground (arith, h buf)
is_ok-cast d write p t buf h = ground (arith, h (buf ++ str "CAST("))

is_ok-json :
    (d : Dialect) (write : Writer) (p : Bool) (path buf : Text)
    → ((b : Text) → is_ok (write b) ≡ p)
    → is_ok (write_json_access d write path buf) ≡ (has_json d && p)
unfolding write_json_access has_json
is_ok-json snowflake write p path buf h = ground (arith, h (buf ++ str "GET_PATH("))
is_ok-json big_query write p path buf h = ground (arith, h (buf ++ str "JSON_EXTRACT_SCALAR("))
is_ok-json d write p path buf h = refl

is_ok-unnest :
    (d : Dialect) (write : Writer) (p : Bool) (buf : Text)
    → ((b : Text) → is_ok (write b) ≡ p)
    → is_ok (write_unnest_expr d write buf) ≡ (has_unnest d && p)
unfolding write_unnest_expr has_unnest
is_ok-unnest big_query write p buf h = ground (arith, h (buf ++ str "UNNEST("))
is_ok-unnest d write p buf h = refl

module _ (d : Dialect) where
  mutual
    unfolding renders write_expr has_json has_unnest is_column

    is_ok-write_expr : (e : Expr) (buf : Text) → is_ok (write_expr d e buf) ≡ renders d e
    is_ok-write_expr (Node.column c) buf = refl
    is_ok-write_expr (Node.literal v) buf = refl
    is_ok-write_expr (Node.binary_op l op r) buf =
        is_ok-bind (write_expr d l buf) _ _ _ (is_ok-write_expr l buf) (λ b. is_ok-write_expr r _)
    is_ok-write_expr (Node.function name args) buf =
        ground (arith, is_ok-write_exprs args true (buf ++ (name ++ str "(")))
    is_ok-write_expr (Node.date_trunc g col) buf = is_ok-date_trunc d g col buf
    is_ok-write_expr (Node.cast e t) buf =
        is_ok-cast d (write_expr d e) (renders d e) t buf (is_ok-write_expr e)
    is_ok-write_expr (Node.json_access e path) buf =
        is_ok-json d (write_expr d e) (renders d e) path buf (is_ok-write_expr e)
    is_ok-write_expr (Node.unnest e) buf =
        is_ok-unnest d (write_expr d e) (renders d e) buf (is_ok-write_expr e)
    is_ok-write_expr (Node.dimension_ref m e n) buf = refl
    is_ok-write_expr (Node.measure_ref m e n) buf = refl
    is_ok-write_expr (Node.count_distinct e) buf =
        ground (arith, is_ok-write_expr e (buf ++ str "COUNT(DISTINCT "))
    is_ok-write_expr Node.count_star buf = refl
    is_ok-write_expr (Node.raw sql) buf = refl
    is_ok-write_expr (Node.aliased e alias) buf = ground (arith, is_ok-write_expr e buf)

    is_ok-write_exprs :
        (es : Exprs) (first : Bool) (buf : Text)
        → is_ok (write_exprs d first es buf) ≡ renders_all d es
    is_ok-write_exprs Node.nil first buf = refl
    is_ok-write_exprs (Node.cons e es) first buf =
        is_ok-bind (write_expr d e (comma first buf)) _ _ _ (is_ok-write_expr e _)
          (λ b. is_ok-write_exprs es false b)

  is_ok-write_order_list :
      (os : List OrderByExpr) (first : Bool) (buf : Text)
      → is_ok (write_order_list d first os buf) ≡ all (renders_order d) os
  unfolding write_order_list all
  is_ok-write_order_list [] first buf = refl
  is_ok-write_order_list (o ∷ os) first buf =
      is_ok-bind (write_expr d o.expr (comma first buf)) _ _ _ (is_ok-write_expr o.expr _)
        (λ b. is_ok-write_order_list os false _)

  is_ok-write_order :
      (os : List OrderByExpr) (buf : Text) → is_ok (write_order d os buf) ≡ all (renders_order d) os
  unfolding write_order
  is_ok-write_order [] buf = unfold all in refl
  is_ok-write_order (o ∷ os) buf = is_ok-write_order_list (o ∷ os) true _

  mutual
    unfolding renders_node write_node

    is_ok-write_node : (n : SqlNode) (buf : Text) → is_ok (write_node d n buf) ≡ renders_node d n
    is_ok-write_node (Node.query ctes sel src w g h order limit offset) buf =
        is_ok-clauses (write_ctes d ctes) (write_node d sel) (write_node d src) (write_opt d w)
          (write_opt d g) (write_opt d h) (write_order d order) (str " ")
          (λ b. write_number d (str " OFFSET ") offset (write_number d (str " LIMIT ") limit b))
          (is_ok-write_ctes ctes) (is_ok-write_node sel) (is_ok-write_node src) (is_ok-write_opt w)
          (is_ok-write_opt g) (is_ok-write_opt h) (is_ok-write_order order) buf
    is_ok-write_node (Node.cte alias body) buf =
        ground (arith, is_ok-write_node body (buf ++ (quote_identifier d alias ++ str " AS (")))
    is_ok-write_node (Node.select es) buf = is_ok-write_exprs es true _
    is_ok-write_node (Node.from src joins) buf =
        is_ok-bind (write_node d src (buf ++ str "FROM ")) _ _ _ (is_ok-write_node src _)
          (λ b. is_ok-write_joins joins b)
    is_ok-write_node (Node.join t relation on) buf =
        is_ok-bind (write_node d relation (buf ++ join_word d t)) _ _ _
          (is_ok-write_node relation _) (λ b. is_ok-write_expr on _)
    is_ok-write_node (Node.where_clause e) buf = is_ok-write_expr e _
    is_ok-write_node (Node.group_by es) buf = is_ok-write_exprs es true _
    is_ok-write_node (Node.having e) buf = is_ok-write_expr e _
    is_ok-write_node (Node.table t) buf = refl
    is_ok-write_node (Node.aliased_table t alias) buf = refl
    is_ok-write_node (Node.time_spine granularity) buf = refl

    is_ok-write_opt : (o : OptNode) (buf : Text) → is_ok (write_opt d o buf) ≡ renders_opt d o
    is_ok-write_opt Node.absent buf = refl
    is_ok-write_opt (Node.present n) buf = is_ok-write_node n _

    is_ok-write_joins :
        (ns : Nodes) (buf : Text) → is_ok (write_joins d ns buf) ≡ renders_nodes d ns
    is_ok-write_joins Node.end buf = refl
    is_ok-write_joins (Node.node n ns) buf =
        is_ok-bind (write_node d n (buf ++ str " ")) _ _ _ (is_ok-write_node n _)
          (λ b. is_ok-write_joins ns b)

    is_ok-write_cte_list :
        (ns : Nodes) (first : Bool) (buf : Text)
        → is_ok (write_cte_list d first ns buf) ≡ renders_nodes d ns
    is_ok-write_cte_list Node.end first buf = refl
    is_ok-write_cte_list (Node.node n ns) first buf =
        is_ok-bind (write_node d n (comma first buf)) _ _ _ (is_ok-write_node n _)
          (λ b. is_ok-write_cte_list ns false b)

    is_ok-write_ctes : (o : OptNodes) (buf : Text) → is_ok (write_ctes d o buf) ≡ renders_ctes d o
    is_ok-write_ctes Node.absent_list buf = refl
    is_ok-write_ctes (Node.present_list Node.end) buf = refl
    is_ok-write_ctes (Node.present_list (Node.node n ns)) buf =
        is_ok-bind (write_node d n (buf ++ str "WITH ")) _ _ _ (is_ok-write_node n _)
          (λ b. is_ok-map (write_cte_list d false ns b) _ _ (is_ok-write_cte_list ns false b))

-- Code generation succeeds exactly on the trees that hold no semantic reference, truncate only
-- plain columns, to a known date part, and use JSON access and UNNEST only where the dialect has
-- them.
pub is_ok-generate_sql :
    (d : Dialect) (ast : SqlNode) → is_ok (generate_sql d ast) ≡ renders_node d ast
unfolding generate_sql
is_ok-generate_sql d ast = is_ok-write_node d ast []
