-- ===== src/Tests/Quoting.antt =====
-- Quoting and literals, at concrete texts.
use maysemantic.Prelude.{
  replace_char, to_ascii_upper, contains_char, starts_with_char, Text, none, some, [], ◌∷◌, ◌++◌,
  ◌≡◌, refl,
}
use maysemantic.Quoted.{read_quoted}
use maysemantic.Ast.Combiners.{Floats, quote_text, literal_str}
use maysemantic.Ast.Combiners.Literals.{read_quoted-quote_text}
use maysemantic.Dialects.Quote.{snowflake, big_query, quote_identifier}
use maysemantic.Dialects.Quote.ReadBack.{read_quoted-quote_identifier}
use maysemantic.Dialects.Quote.BigQuery.{read_backtick, read_backtick_dangling}
use maysemantic.Tests.Fixtures.{decimal_floats}

instance abbrev floats : Floats
floats = decimal_floats

-- x'y
abbrev quoted_name : Text
quoted_name = b'x' ∷ 39 ∷ b'y' ∷ []

-- a.b
abbrev dotted_name : Text
dotted_name = b'a' ∷ b'.' ∷ b'b' ∷ []

read_quoted-quote_text_example :
    read_quoted 39 (39 ∷ b'x' ∷ 39 ∷ 39 ∷ b'y' ∷ 39 ∷ b')' ∷ []) ≡ some (quoted_name, b')' ∷ [])
unfolding starts_with_char literal_str quote_text replace_char
read_quoted-quote_text_example =
    read_quoted-quote_text quoted_name (b')' ∷ []) (39 ∷ b'x' ∷ 39 ∷ 39 ∷ b'y' ∷ 39 ∷ []) refl refl

read_quoted-quote_identifier_example :
    read_quoted 34 (quote_identifier snowflake (b'a' ∷ 34 ∷ []) ++ (b'.' ∷ []))
    ≡ some (b'A' ∷ 34 ∷ [], b'.' ∷ [])
unfolding starts_with_char to_ascii_upper
read_quoted-quote_identifier_example =
    read_quoted-quote_identifier snowflake (b'a' ∷ 34 ∷ []) (b'.' ∷ []) (λ e. cc) refl

read_backtick_dangling_example :
    read_backtick (quote_identifier big_query (b'a' ∷ 92 ∷ []) ++ (b')' ∷ [])) ≡ none
unfolding contains_char
read_backtick_dangling_example = read_backtick_dangling (b'a' ∷ []) (b')' ∷ []) refl refl

-- 'x' OR 'y'
abbrev injected : Text
injected = b'x' ∷ 39 ∷ 32 ∷ b'O' ∷ b'R' ∷ 32 ∷ 39 ∷ b'y' ∷ []
