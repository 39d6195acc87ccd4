-- ===== src/Connectors/Postgres/Types.antt =====
-- The values of a Postgres row fit the types of its columns: may_connectors/src/dwh/postgres.rs.

use Prim.Native.String.{String}
use maysemantic.Connectors.{Row, ColumnValue, null, int64, float64, text, bool, bytes}
use maysemantic.Connectors.Postgres.{
  Got, map_column_value, PgType, Column, map_typed, decode, int2, int4, int8, float4, float8,
  text_type, varchar, bpchar, bool_type, bytea, other,
}
use maysemantic.Prelude.{
  >>=-eq-ok, ok-injective, subst, Text, ◌≡◌, traverse, ok, err, some, none, [], ◌∷◌, List,
}

-- a value of the variant that the source makes of a type, or null; none for a type that it does not know
abbrev pub HasType : PgType → ColumnValue → Type 0
HasType (other n) v = ⊥
HasType t null = Unit
HasType int2 (int64 i) = Unit
HasType int4 (int64 i) = Unit
HasType int8 (int64 i) = Unit
HasType float4 (float64 f) = Unit
HasType float8 (float64 f) = Unit
HasType text_type (text s) = Unit
HasType varchar (text s) = Unit
HasType bpchar (text s) = Unit
HasType bool_type (bool b) = Unit
HasType bytea (bytes b) = Unit
HasType t v = ⊥

-- each value fits the type of its column, and there is one for each column
abbrev pub HasTypes : List Column → Row → Type 0
HasTypes [] [] = Unit
HasTypes (c ∷ cs) (v ∷ vs) = HasType c.type_ v × HasTypes cs vs
HasTypes _ _ = ⊥

decoded :
    {A : Type 0} (P : ColumnValue → Type 0) (kind : String) (name : Text) (wrap : A → ColumnValue)
    (got : Got A) (v : ColumnValue)
    → P null
    → ((a : A) → P (wrap a))
    → decode kind name wrap got ≡ ok v
    → P v
unfolding decode
decoded P kind name wrap (ok (some a)) v z each h = subst P (ok-injective h) (each a)
decoded P kind name wrap (ok none) v z each h = subst P (ok-injective h) z
decoded P kind name wrap (err e) v z each h = cc

map_typed-HasType : (c : Column) (t : PgType) (v : ColumnValue) → map_typed c t ≡ ok v → HasType t v
unfolding map_typed
map_typed-HasType c int2 v h = decoded (HasType int2) "INT2" c.name int64 c.as_int v tt (λ a. tt) h
map_typed-HasType c int4 v h = decoded (HasType int4) "INT4" c.name int64 c.as_int v tt (λ a. tt) h
map_typed-HasType c int8 v h = decoded (HasType int8) "INT8" c.name int64 c.as_int v tt (λ a. tt) h
map_typed-HasType c float4 v h =
    decoded (HasType float4) "FLOAT4" c.name float64 c.as_float v tt (λ a. tt) h
map_typed-HasType c float8 v h =
    decoded (HasType float8) "FLOAT8" c.name float64 c.as_float v tt (λ a. tt) h
map_typed-HasType c text_type v h =
    decoded (HasType text_type) "string type" c.name text c.as_text v tt (λ a. tt) h
map_typed-HasType c varchar v h =
    decoded (HasType varchar) "string type" c.name text c.as_text v tt (λ a. tt) h
map_typed-HasType c bpchar v h =
    decoded (HasType bpchar) "string type" c.name text c.as_text v tt (λ a. tt) h
map_typed-HasType c bool_type v h =
    decoded (HasType bool_type) "BOOL" c.name bool c.as_bool v tt (λ a. tt) h
map_typed-HasType c bytea v h =
    decoded (HasType bytea) "BYTEA" c.name bytes c.as_bytes v tt (λ a. tt) h
map_typed-HasType c (other n) v h = cc

-- A row that is mapped has one value for each column, null or of the variant of the column's type, and
-- no column of a type that the source does not know.
pub map_column_value-HasTypes :
    (cs : List Column) (row : Row) → traverse map_column_value cs ≡ ok row → HasTypes cs row
unfolding traverse map_column_value
map_column_value-HasTypes [] row h = subst (HasTypes []) (ok-injective h) tt
map_column_value-HasTypes (c ∷ cs) row h =
    let (v, e, h₁) = >>=-eq-ok (map_column_value c) _ h in
    let (vs, e₂, h₂) = >>=-eq-ok (traverse map_column_value cs) _ h₁ in
    subst (HasTypes (c ∷ cs)) (ok-injective h₂)
      (map_typed-HasType c c.type_ v e, map_column_value-HasTypes cs vs e₂)
