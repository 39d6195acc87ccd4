-- ===== src/Quoted.antt =====
-- How a lexer of standard SQL reads a quoted token: the independent description against which the quoting
-- functions are proved. A doubled quote inside the token stands for the quote itself.
use maysemantic.Prelude.{
  ℕ, Text, Bool, true, false, Option, some, none, [], ◌∷◌, ◌++◌, ◌≡◌, refl, nat_eq, arith,
  nat_eq_iff, if◌then◌else◌, replace_char, starts_with_char,
}

prepend : ℕ → Option (Text × Text) → Option (Text × Text)
prepend c none = none
prepend c (some (body, rest)) = some (c ∷ body, rest)

-- The flag says that a quote has been read which either closes the token or is the first of two.
unfoldable pub lex_quoted : ℕ → Bool → Text → Option (Text × Text)
unfolding prepend
lex_quoted q false [] = none
lex_quoted q true [] = some ([], [])
lex_quoted q false (c ∷ s) =
    let inside = prepend c (lex_quoted q false s) in
    let closing = lex_quoted q true s in if nat_eq c q then closing else inside
lex_quoted q true (c ∷ s) =
    let doubled = prepend q (lex_quoted q false s) in
    if nat_eq c q then doubled else some ([], c ∷ s)

-- The value of the quoted token at the head of a text, and the text behind it.
unfoldable pub read_quoted : ℕ → Text → Option (Text × Text)
unfolding lex_quoted
read_quoted q [] = none
read_quoted q (c ∷ s) = if nat_eq c q then lex_quoted q false s else none

lex_closed :
    (q : ℕ) (rest : Text)
    → starts_with_char q rest ≡ false
    → lex_quoted q true rest ≡ some ([], rest)
unfolding lex_quoted starts_with_char
lex_closed q [] h = refl
lex_closed q (c ∷ s) h = rw h refl

lex-replace_char :
    (q : ℕ) (v rest : Text)
    → starts_with_char q rest ≡ false
    → lex_quoted q false (replace_char q (q ∷ q ∷ []) v ++ (q ∷ rest)) ≡ some (v, rest)
unfolding replace_char lex_quoted
lex-replace_char q [] rest h = rw ((nat_eq_iff q q).1 refl) (lex_closed q rest h)
lex-replace_char q (c ∷ v) rest h =
    ground (arith, lex-replace_char q v rest h, nat_eq_iff c q, nat_eq_iff q q)

-- A text that is quoted by doubling its quotes is read back whole, whatever characters it holds,
-- and what follows the token is untouched.
pub read_quoted_closed :
    (q : ℕ) (v rest : Text)
    → starts_with_char q rest ≡ false
    → read_quoted q (q ∷ replace_char q (q ∷ q ∷ []) v ++ (q ∷ rest)) ≡ some (v, rest)
unfolding read_quoted
read_quoted_closed q v rest h = rw ((nat_eq_iff q q).1 refl) (lex-replace_char q v rest h)
