-- ===== src/Dialects/Quote/BigQuery.antt =====
-- BigQuery's quoting by backticks and backslashes.
use mathlib.Core.Option
use mathlib.Core.List.{append_assoc, append-nil}
use maysemantic.Prelude.{
  Bool, nat_eq_iff, sym, Text, true, false, [], ◌∷◌, ◌++◌, ◌≡◌, refl, some, none, Option,
  if◌then◌else◌, nat_eq, arith, replace_char, contains_char,
}
use maysemantic.Dialects.Quote.{big_query, push_big_query, quote_identifier}

-- How BigQuery reads a token between backticks: a backslash takes the next character as it is.
unfoldable pub lex_backtick : Bool → Text → Option (Text × Text)
lex_backtick escaped [] = none
lex_backtick true (c ∷ s) = Option.map (λ r. (c ∷ r.0, r.1)) (lex_backtick false s)
lex_backtick false (c ∷ s) =
    let inside = Option.map (λ r. (c ∷ r.0, r.1)) (lex_backtick false s) in
    let next_escaped = lex_backtick true s in
    if nat_eq c 96 then some ([], s) else if nat_eq c 92 then next_escaped else inside

unfoldable pub read_backtick : Text → Option (Text × Text)
read_backtick [] = none
read_backtick (c ∷ s) = if nat_eq c 96 then lex_backtick false s else none

push_big_query_lem : (buf s : Text) → push_big_query buf s ≡ buf ++ replace_char 96 (92 ∷ 96 ∷ []) s
unfolding push_big_query replace_char
push_big_query_lem buf [] = sym (append-nil buf)
push_big_query_lem buf (c ∷ s) = ground (
  arith,
  push_big_query_lem (if nat_eq c 96 then buf ++ (92 ∷ 96 ∷ []) else buf ++ (c ∷ [])) s,
  append_assoc buf (if nat_eq c 96 then 92 ∷ 96 ∷ [] else c ∷ [])
      (replace_char 96 (92 ∷ 96 ∷ []) s),
)

lex_escaped :
    (v rest : Text)
    → contains_char 92 v ≡ false
    → lex_backtick false (replace_char 96 (92 ∷ 96 ∷ []) v ++ (96 ∷ rest)) ≡ some (v, rest)
unfolding lex_backtick replace_char contains_char
lex_escaped [] rest h = refl
lex_escaped (c ∷ v) rest h = ground (arith, lex_escaped v rest, nat_eq_iff c 96)

lex_unclosed :
    (escaped : Bool) (s : Text) → contains_char 96 s ≡ false → lex_backtick escaped s ≡ none
unfolding lex_backtick contains_char
lex_unclosed escaped [] h = refl
lex_unclosed true (c ∷ s) h = ground (arith, lex_unclosed false s)
lex_unclosed false (c ∷ s) h = ground (arith, lex_unclosed false s, lex_unclosed true s)

lex_dangling :
    (v rest : Text)
    → contains_char 92 v ≡ false
    → contains_char 96 rest ≡ false
    → lex_backtick false (replace_char 96 (92 ∷ 96 ∷ []) (v ++ (92 ∷ [])) ++ (96 ∷ rest)) ≡ none
unfolding replace_char contains_char lex_backtick
lex_dangling [] rest h k = rw (lex_unclosed false rest k) refl
lex_dangling (c ∷ v) rest h k = ground (arith, lex_dangling v rest, nat_eq_iff c 96)

quoted_body :
    (v rest : Text)
    → quote_identifier big_query v ++ rest ≡ 96 ∷ replace_char 96 (92 ∷ 96 ∷ []) v ++ (96 ∷ rest)
unfolding quote_identifier
quoted_body v rest =
    rw push_big_query_lem
      (append_assoc ((96 ∷ []) ++ replace_char 96 (92 ∷ 96 ∷ []) v) (96 ∷ []) rest)

-- A BigQuery identifier with no backslash is read back whole, and what follows it is untouched.
pub read_backtick-quote_identifier :
    (v rest : Text)
    → contains_char 92 v ≡ false
    → read_backtick (quote_identifier big_query v ++ rest) ≡ some (v, rest)
unfolding read_backtick
read_backtick-quote_identifier v rest h = rw quoted_body (lex_escaped v rest h)

-- A BigQuery identifier that ends in its only backslash is not closed: the reader runs on through all that
-- follows, if no other backtick stands there.
pub read_backtick_dangling :
    (v rest : Text)
    → contains_char 92 v ≡ false
    → contains_char 96 rest ≡ false
    → read_backtick (quote_identifier big_query (v ++ (92 ∷ [])) ++ rest) ≡ none
unfolding read_backtick
read_backtick_dangling v rest h k = rw quoted_body (lex_dangling v rest h k)
