-- ===== src/Compiler/Semantic/Clauses/Values.antt =====
-- How the value of a filter is written.
use maysemantic.Prelude.{
  ℕ, Text, true, false, some, [], ◌∷◌, ◌++◌, ◌≡◌, starts_with_char, ends_with_char, refl, arith,
}
use maysemantic.Quoted.{read_quoted}
use maysemantic.Ast.Combiners.{literal_str, quote_text, Floats}
use maysemantic.Ast.Combiners.Literals.{read_quoted-quote_text}
use maysemantic.Compiler.Semantic.Clauses.{is_verbatim, quoted_value}

ends_with_char-snoc : (c : ℕ) (s : Text) → ends_with_char c (s ++ (c ∷ [])) ≡ true
unfolding ends_with_char
ends_with_char-snoc c [] = ground arith
ends_with_char-snoc c (x ∷ []) = ends_with_char-snoc c []
ends_with_char-snoc c (x ∷ y ∷ s) = ends_with_char-snoc c (y ∷ s)

module _ ⦃F : Floats⦄ where
  -- The value of a filter that is not taken for SQL is written as a string literal which a SQL
  -- lexer reads as that value, unless the text that follows begins with a quote.
  read_quoted-quoted_value :
      (value rest : Text)
      → is_verbatim value ≡ false
      → starts_with_char 39 rest ≡ false
      → read_quoted 39 (quoted_value value ++ rest) ≡ some (value, rest)
  unfolding quoted_value
  read_quoted-quoted_value value rest v q =
      rw v (read_quoted-quote_text value rest (quote_text value) (unfold literal_str in refl) q)

  -- A value that begins and ends with a quote is written as it stands, whatever is between.
  quoted_value_verbatim :
      (inner : Text) → quoted_value (39 ∷ inner ++ (39 ∷ [])) ≡ 39 ∷ inner ++ (39 ∷ [])
  unfolding quoted_value is_verbatim starts_with_char
  quoted_value_verbatim inner = rw (ends_with_char-snoc 39 (39 ∷ inner)) refl
