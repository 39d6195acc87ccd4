-- ===== src/Dialects/Quote/ReadBack.antt =====
-- What a lexer of standard SQL reads where the dialects quote.
use mathlib.Core.List.{append_assoc, append-nil}
use maysemantic.Prelude.{
  sym, ◌≢◌, Text, false, [], ◌∷◌, ◌++◌, ◌≡◌, refl, some, if◌then◌else◌, nat_eq, arith, map,
  replace_char, starts_with_char, to_ascii_upper,
}
use maysemantic.Quoted.{read_quoted, read_quoted_closed}
use maysemantic.Ast.Combiners.{quote_text}
use maysemantic.Dialects.Quote.{
  Dialect, dummy, postgres, snowflake, big_query, push_literal, push_ansi, push_snowflake,
  quote_identifier, write_sql_string_literal,
}

push_literal_lem : (buf s : Text) → push_literal buf s ≡ buf ++ replace_char 39 (39 ∷ 39 ∷ []) s
unfolding push_literal replace_char
push_literal_lem buf [] = sym (append-nil buf)
push_literal_lem buf (c ∷ s) = ground (
  arith,
  push_literal_lem (if nat_eq c 39 then buf ++ (39 ∷ 39 ∷ []) else buf ++ (c ∷ [])) s,
  append_assoc buf (if nat_eq c 39 then 39 ∷ 39 ∷ [] else c ∷ [])
      (replace_char 39 (39 ∷ 39 ∷ []) s),
)

push_ansi_lem : (buf s : Text) → push_ansi buf s ≡ buf ++ replace_char 34 (34 ∷ 34 ∷ []) s
unfolding push_ansi replace_char
push_ansi_lem buf [] = sym (append-nil buf)
push_ansi_lem buf (c ∷ s) = ground (
  arith,
  push_ansi_lem (if nat_eq c 34 then buf ++ (34 ∷ 34 ∷ []) else buf ++ (c ∷ [])) s,
  append_assoc buf (if nat_eq c 34 then 34 ∷ 34 ∷ [] else c ∷ [])
      (replace_char 34 (34 ∷ 34 ∷ []) s),
)

push_snowflake_lem : (buf s : Text) → push_snowflake buf s ≡ push_ansi buf (map to_ascii_upper s)
unfolding push_snowflake push_ansi
push_snowflake_lem buf [] = refl
push_snowflake_lem buf (c ∷ s) =
    push_snowflake_lem
      (if nat_eq (to_ascii_upper c) 34
        then buf ++ (34 ∷ 34 ∷ [])
        else buf ++ (to_ascii_upper c ∷ []))
      s

-- The text that an identifier stands for in the dialects that quote by `"`.
abbrev pub resolved : Dialect → Text → Text
resolved snowflake v = map to_ascii_upper v
resolved d v = v

-- The loop that writes a string literal writes what the combinator `literal_str` builds.
write_sql_string_literal-eq : (buf s : Text) → write_sql_string_literal buf s ≡ buf ++ quote_text s
unfolding write_sql_string_literal quote_text
write_sql_string_literal-eq buf s = simp (push_literal_lem, append_assoc)

read_ansi :
    (v rest : Text)
    → starts_with_char 34 rest ≡ false
    → read_quoted 34 ((push_ansi (34 ∷ []) v ++ (34 ∷ [])) ++ rest) ≡ some (v, rest)
read_ansi v rest h = rw push_ansi_lem (rw append_assoc (read_quoted_closed 34 v rest h))

-- In every dialect but BigQuery an identifier, whatever it holds, is read back whole (Snowflake's
-- in upper case), and what follows it is untouched unless it begins with a quote.
pub read_quoted-quote_identifier :
    (d : Dialect) (v rest : Text)
    → d ≢ big_query
    → starts_with_char 34 rest ≡ false
    → read_quoted 34 (quote_identifier d v ++ rest) ≡ some (resolved d v, rest)
unfolding quote_identifier
read_quoted-quote_identifier dummy v rest n h = read_ansi v rest h
read_quoted-quote_identifier postgres v rest n h = read_ansi v rest h
read_quoted-quote_identifier snowflake v rest n h =
    rw push_snowflake_lem (read_ansi (map to_ascii_upper v) rest h)
read_quoted-quote_identifier big_query v rest n h = absurd (n refl)
