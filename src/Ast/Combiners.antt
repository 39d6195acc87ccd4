-- ===== src/Ast/Combiners.antt =====
-- Constructors for predicates and literals, may_core/src/ast/combiners.rs. The floats of the
-- language are the parameter `Floats`.
pub mod Literals
use maysemantic.Prelude.{
  Text, str, Bool, true, Option, some, none, [], ◌∷◌, ◌++◌, ◌≡◌, ◌==◌, if◌then◌else◌, map, all,
  trim, replace_char, parse_i64, show_i64, is_num_char, to_ascii_lower,
}
use maysemantic.Ast.Node.{Expr, literal, binary_op}

-- `f64`: its `parse`, `is_finite` and `to_string`. A finite value prints with no exponent.
pub record Floats : Type 1 where
  pub Float : Type 0
  pub parse_f64 : Text → Option Float
  pub is_finite : Float → Bool
  pub show_f64 : Float → Text
  pub shown : (x : Float) → is_finite x ≡ true → all is_num_char (show_f64 x) ≡ true

unfoldable pub and_expr : Expr → Expr → Expr
and_expr left right = binary_op left (str "AND") right

unfoldable pub or_expr : Expr → Expr → Expr
or_expr left right = binary_op left (str "OR") right

unfoldable pub eq_expr : Expr → Expr → Expr
eq_expr left right = binary_op left (str "=") right

-- `format!("'{}'", val.replace('\'', "''"))`
unfoldable pub quote_text : Text → Text
quote_text val = 39 ∷ replace_char 39 (39 ∷ 39 ∷ []) val ++ (39 ∷ [])

unfoldable pub literal_str : Text → Expr
literal_str val = literal (quote_text val)

module _ ⦃F : Floats⦄ where
  finite_literal : Option F.Float → Option Expr
  finite_literal none = none
  finite_literal (some f) = if F.is_finite f then some (literal (F.show_f64 f)) else none

  unfoldable pub literal_num : Text → Option Expr
  unfolding finite_literal
  literal_num val = elim (parse_i64 (trim val)) [
    | some i ↦ some (literal (show_i64 i))
    | none ↦ finite_literal (F.parse_f64 (trim val))
  ]

unfoldable pub literal_bool : Text → Option Expr
literal_bool val =
    let v = map to_ascii_lower (trim val) in
    if v == str "true"
    then some (literal (str "TRUE"))
    else if v == str "false"
    then some (literal (str "FALSE"))
    else none
