-- ===== src/Dialects/Quote/Names.antt =====
-- Names that were validated.
use maysemantic.Prelude.{
  is_ascii_lowercase, is_ascii_digit, Text, true, false, some, [], ◌∷◌, ◌++◌, ◌≡◌, all,
  contains_char, nat_eq_iff, arith, refl,
}
use maysemantic.Models.Core.{validate_name, name_char}
use maysemantic.Dialects.Quote.{quote_identifier, big_query}
use maysemantic.Dialects.Quote.BigQuery.{read_backtick, read_backtick-quote_identifier}

name_chars_plain : (s : Text) → all name_char s ≡ true → contains_char 92 s ≡ false
unfolding name_char all contains_char is_ascii_lowercase is_ascii_digit
name_chars_plain [] h = refl
name_chars_plain (c ∷ s) h = ground (arith, name_chars_plain s, nat_eq_iff c 92)

validate_name_plain : (s : Text) → validate_name s ≡ true → contains_char 92 s ≡ false
unfolding validate_name contains_char is_ascii_lowercase
validate_name_plain [] h = cc
validate_name_plain (c ∷ s) h = ground (arith, name_chars_plain s, nat_eq_iff c 92)

-- A name that was validated has no backslash, so BigQuery reads its quoted form back whole.
read_backtick-validate_name :
    (name rest : Text)
    → validate_name name ≡ true
    → read_backtick (quote_identifier big_query name ++ rest) ≡ some (name, rest)
read_backtick-validate_name name rest h =
    read_backtick-quote_identifier name rest (validate_name_plain name h)
