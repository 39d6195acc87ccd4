-- ===== src/Connectors/Snowflake/Types.antt =====
-- The values of a Snowflake row fit the types of its columns: `map_row`,
-- may_connectors/src/dwh/snowflake.rs.

use maysemantic.Connectors.Snowflake.{other}
use maysemantic.Connectors.Snowflake.{
  tail, binary, read_bool, boolean, head_or, field_type_of, real, fixed, is_integral, map_cell,
  map_text, map_row, FieldType, Formats,
}
use maysemantic.Json
use maysemantic.Json.{nil, cons}
use maysemantic.Connectors.{
  Row, Value, ConnectorError, Items, ColumnValue, null, int64, float64, text, bool, bytes,
}
use maysemantic.Prelude.{
  ◌==◌, ◌||◌, to_ascii_upper, negative, arith, map, positive, any, Bool, ◌⊎◌, refl, str, >>=-eq-ok,
  parse_i64, ok-injective, Bool-cases, subst, length, ◌≡◌, ok_or, Integer, Text, Option, ℕ, List,
  ok, some, none, [], ◌∷◌, ◌>>=◌, true, false, inl, inr, suc, ap,
}

-- the name of the type, in any case of letters, is one of these
abbrev pub is_one_of : List Text → Text → Bool
is_one_of names t = any (λ n. map to_ascii_upper t == n) names

abbrev pub exact_names : List Text
exact_names = str "FIXED" ∷ str "NUMBER" ∷ []

abbrev pub float_names : List Text
float_names = str "REAL" ∷ str "FLOAT" ∷ str "DOUBLE" ∷ []

-- a scale of 0, or none
abbrev pub IsWhole : Option Integer → Type 0
IsWhole none = Unit
IsWhole (some (positive n)) = n ≡ 0
IsWhole (some (negative n)) = ⊥

-- the variants that a column of a type and a scale may have
abbrev pub HasType : Text → Option Integer → ColumnValue → Type 0
HasType t scale null = Unit
HasType t scale (int64 i) = (is_one_of exact_names t ≡ true) × IsWhole scale
HasType t scale (float64 f) =
    ((is_one_of exact_names t ≡ true) × (¬ IsWhole scale)) ⊎ (is_one_of float_names t ≡ true)
HasType t scale (bool b) = is_one_of (str "BOOLEAN" ∷ []) t ≡ true
HasType t scale (bytes bs) = is_one_of (str "BINARY" ∷ []) t ≡ true
HasType t scale (text s) =
    (is_one_of exact_names t ≡ false)
    × (is_one_of float_names t ≡ false)
    × (is_one_of (str "BOOLEAN" ∷ str "BINARY" ∷ []) t ≡ false)

-- each value of a row fits the type of its column, a column that is missing being a TEXT
abbrev pub HasTypes : List Text → List (Option Integer) → Row → Type 0
HasTypes col_types col_scales [] = Unit
HasTypes col_types col_scales (v ∷ row) =
    HasType (head_or (str "TEXT") col_types) (head_or none col_scales) v
    × HasTypes (tail col_types) (tail col_scales) row

abbrev pub count : Items → ℕ
count nil = 0
count (cons cell cells) = suc (count cells)

-- what holds of every value that is wrapped holds of the value that is read
wrapped :
    {A : Type 0} (P : ColumnValue → Type 0) (wrap : A → ColumnValue) (o : Option A)
    (e : ConnectorError) (v : ColumnValue)
    → ((a : A) → P (wrap a))
    → (ok_or o e >>= λ a. ok (wrap a)) ≡ ok v
    → P v
wrapped P wrap none e v each h = cc
wrapped P wrap (some a) e v each h = subst P (ok-injective h) (each a)

-- what the case of `match` says of the name
abbrev IsCase : Text → FieldType → Type 0
IsCase t fixed = is_one_of exact_names t ≡ true
IsCase t real = is_one_of float_names t ≡ true
IsCase t boolean = is_one_of (str "BOOLEAN" ∷ []) t ≡ true
IsCase t binary = is_one_of (str "BINARY" ∷ []) t ≡ true
IsCase t other =
    (is_one_of exact_names t ≡ false)
    × (is_one_of float_names t ≡ false)
    × (is_one_of (str "BOOLEAN" ∷ str "BINARY" ∷ []) t ≡ false)

field_type_of-IsCase : (t : Text) → IsCase t (field_type_of t)
unfolding field_type_of any
field_type_of-IsCase t =
    let upper = map to_ascii_upper t in
    elim (Bool-cases (upper == str "FIXED" || upper == str "NUMBER")) [
      | inl e ↦ rw e (ground arith)
      | inr e ↦
          elim (Bool-cases
            (upper == str "REAL" || (upper == str "FLOAT" || upper == str "DOUBLE"))) [
              | inl f ↦ rw (e, f) (ground arith)
              | inr f ↦ elim (Bool-cases (upper == str "BOOLEAN")) [
                | inl g ↦ rw (e, f, g) (ground arith)
                | inr g ↦ elim (Bool-cases (upper == str "BINARY")) [
                  | inl h ↦ rw (e, f, g, h) (ground arith)
                  | inr h ↦ rw (e, f, g, h) (ground arith, ground arith, ground arith)
                ]
              ]
            ]
    ]

is_integral-IsWhole : (scale : Option Integer) → is_integral scale ≡ true → IsWhole scale
unfolding is_integral
is_integral-IsWhole none h = tt
is_integral-IsWhole (some (positive n)) h = ground arith
is_integral-IsWhole (some (negative n)) h = cc

IsWhole-is_integral : (scale : Option Integer) → is_integral scale ≡ false → ¬ IsWhole scale
unfolding is_integral
IsWhole-is_integral none h w = cc
IsWhole-is_integral (some (positive n)) h w = ground arith
IsWhole-is_integral (some (negative n)) h w = w

module _ ⦃F : Formats⦄ where
  map_text-HasType :
      (t : Text) (case : FieldType) (scale : Option Integer) (col_name s : Text) (v : ColumnValue)
      → IsCase t case
      → map_text case scale col_name s ≡ ok v
      → HasType t scale v
  unfolding map_text
  map_text-HasType t fixed scale col_name s v c h = elim (Bool-cases (is_integral scale)) [
    | inl e ↦
        wrapped (HasType t scale) int64 (parse_i64 s) _ v (λ i. (c, is_integral-IsWhole scale e))
          (rw e at h)
    | inr e ↦
        wrapped (HasType t scale) float64 (F.parse_f64 s) _ v
          (λ f. inl (c, IsWhole-is_integral scale e)) (rw e at h)
  ]
  map_text-HasType t real scale col_name s v c h =
      wrapped (HasType t scale) float64 (F.parse_f64 s) _ v (λ f. inr c) h
  map_text-HasType t boolean scale col_name s v c h =
      wrapped (HasType t scale) bool (read_bool s) _ v (λ b. c) h
  map_text-HasType t binary scale col_name s v c h =
      wrapped (HasType t scale) bytes (F.decode_base64 s) _ v (λ bs. c) h
  map_text-HasType t other scale col_name s v c h = subst (HasType t scale) (ok-injective h) c

  map_cell-HasType :
      (cell : Value) (field_type : Text) (scale : Option Integer) (col_name : Text)
      (v : ColumnValue)
      → map_cell cell field_type scale col_name ≡ ok v
      → HasType field_type scale v
  unfolding map_cell
  map_cell-HasType Json.null ty scale n v h = subst (HasType ty scale) (ok-injective h) tt
  map_cell-HasType (Json.string s) ty scale n v h =
      map_text-HasType ty (field_type_of ty) scale n s v (field_type_of-IsCase ty) h
  map_cell-HasType (Json.bool b) ty scale n v h = cc
  map_cell-HasType (Json.int i) ty scale n v h = cc
  map_cell-HasType (Json.float f) ty scale n v h = cc
  map_cell-HasType (Json.array xs) ty scale n v h = cc
  map_cell-HasType (Json.object fs) ty scale n v h = cc

  -- A row that is mapped has one value for each cell. A value that is not null is an integer where the
  -- column is FIXED or NUMBER and its scale is 0 or missing, a float where the scale is another or the
  -- column is REAL, FLOAT or DOUBLE, a Boolean where it is BOOLEAN, bytes where it is BINARY, and a text
  -- in every other column.
  pub map_row-HasTypes :
      (cells : Items) (col_names col_types : List Text) (col_scales : List (Option Integer))
      (row : Row)
      → map_row cells col_names col_types col_scales ≡ ok row
      → HasTypes col_types col_scales row × (length row ≡ count cells)
  unfolding map_row
  map_row-HasTypes nil names types scales row h =
      subst (λ r. HasTypes types scales r × (length r ≡ 0)) (ok-injective h) (tt, refl)
  map_row-HasTypes (cons cell cells) names types scales row h =
      let (v, e, h₁) =
        >>=-eq-ok
          (map_cell cell (head_or (str "TEXT") types) (head_or none scales)
            (head_or (str "unknown") names))
          _ h in
      let (rest, e₂, h₂) = >>=-eq-ok (map_row cells (tail names) (tail types) (tail scales)) _ h₁ in
      let (typed, size) = map_row-HasTypes cells (tail names) (tail types) (tail scales) rest e₂ in
      subst (λ r. HasTypes types scales r × (length r ≡ suc (count cells))) (ok-injective h₂)
        (
          (
            map_cell-HasType cell (head_or (str "TEXT") types) (head_or none scales)
                (head_or (str "unknown") names) v e,
            typed,
          ),
          ap suc size,
        )
