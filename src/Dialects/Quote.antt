-- ===== src/Dialects/Quote.antt =====
-- The dialects and how each writes names, string literals and date truncations:
-- may_core/src/dialects/{core,postgres,snowflake,bigquery,dummy,mod}.rs.
pub mod ReadBack
pub mod Qualified
pub mod BigQuery
pub mod Names
use maysemantic.Prelude.{
  Text, str, Bool, List, [], ◌∷◌, ◌++◌, if◌then◌else◌, nat_eq, not, map, contains_char, split,
  join_with, to_ascii_upper, to_ascii_lower, ◌==◌, any,
}

-- The implementations of the trait `SqlDialect`; `dummy` has its defaults alone.
pub data Dialect : Type 0 where
  dummy postgres snowflake big_query : Dialect

unfoldable pub dialect_for : Text → Dialect
dialect_for kind =
    let k = map to_ascii_lower kind in
    if k == str "snowflake" then snowflake else if k == str "bigquery" then big_query else postgres

-- The loop of `write_sql_string_literal`.
pub push_literal : Text → Text → Text
push_literal buf [] = buf
push_literal buf (c ∷ s) =
    push_literal (if nat_eq c 39 then buf ++ (39 ∷ 39 ∷ []) else buf ++ (c ∷ [])) s

unfoldable pub write_sql_string_literal : Text → Text → Text
unfolding push_literal
write_sql_string_literal buf s = push_literal (buf ++ (39 ∷ [])) s ++ (39 ∷ [])

-- The loop of the default `quote_identifier`.
pub push_ansi : Text → Text → Text
push_ansi buf [] = buf
push_ansi buf (c ∷ s) = push_ansi (if nat_eq c 34 then buf ++ (34 ∷ 34 ∷ []) else buf ++ (c ∷ [])) s

-- The loop of Snowflake's: upper case first.
pub push_snowflake : Text → Text → Text
push_snowflake buf [] = buf
push_snowflake buf (c ∷ s) =
    let upper_c = to_ascii_upper c in
    push_snowflake (if nat_eq upper_c 34 then buf ++ (34 ∷ 34 ∷ []) else buf ++ (upper_c ∷ [])) s

-- The loop of BigQuery's: a backtick is escaped by a backslash.
pub push_big_query : Text → Text → Text
push_big_query buf [] = buf
push_big_query buf (c ∷ s) =
    push_big_query (if nat_eq c 96 then buf ++ (92 ∷ 96 ∷ []) else buf ++ (c ∷ [])) s

unfoldable pub quote_identifier : Dialect → Text → Text
unfolding push_ansi push_snowflake push_big_query
quote_identifier snowflake ident = push_snowflake (34 ∷ []) ident ++ (34 ∷ [])
quote_identifier big_query ident = push_big_query (96 ∷ []) ident ++ (96 ∷ [])
quote_identifier _ ident = push_ansi (34 ∷ []) ident ++ (34 ∷ [])

unfoldable pub quote_schema_qualified : Dialect → Text → Text
quote_schema_qualified d ident =
    if not (contains_char b'.' ident)
    then quote_identifier d ident
    else join_with (b'.' ∷ []) (map (quote_identifier d) (split b'.' ident))

-- `write_date_trunc` of Snowflake: the date part in upper case.
date_trunc_snowflake : Text → Text → Text → Text
date_trunc_snowflake granularity col buf =
    buf
    ++ (str "DATE_TRUNC('"
        ++ (map to_ascii_upper granularity
            ++ (str "', " ++ (quote_schema_qualified snowflake col ++ str ")"))))

-- BigQuery's: the column first, and the date part in upper case with no quotes.
date_trunc_big_query : Text → Text → Text → Text
date_trunc_big_query granularity col buf =
    buf
    ++ (str "DATE_TRUNC("
        ++ (quote_schema_qualified big_query col
            ++ (str ", " ++ (map to_ascii_upper granularity ++ str ")"))))

unfoldable pub write_date_trunc : Dialect → Text → Text → Text → Text
unfolding date_trunc_snowflake date_trunc_big_query
write_date_trunc snowflake granularity col buf = date_trunc_snowflake granularity col buf
write_date_trunc big_query granularity col buf = date_trunc_big_query granularity col buf
write_date_trunc d granularity col buf =
    buf
    ++ (str "DATE_TRUNC('"
        ++ (granularity ++ (str "', " ++ (quote_schema_qualified d col ++ str ")"))))

abbrev valid_date_parts : List Text
valid_date_parts =
    str "year"
    ∷ str "quarter"
    ∷ str "month"
    ∷ str "week"
    ∷ str "day"
    ∷ str "hour"
    ∷ str "minute"
    ∷ str "second"
    ∷ []

-- `VALID_DATE_PARTS.iter().any(|p| p.eq_ignore_ascii_case(granularity))`
unfoldable pub is_date_part : Text → Bool
is_date_part granularity =
    any (λ p. map to_ascii_lower p == map to_ascii_lower granularity) valid_date_parts
