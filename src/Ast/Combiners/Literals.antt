-- ===== src/Ast/Combiners/Literals.antt =====
-- What the literal constructors can put into the SQL text.
use mathlib.Core.List.{append_assoc}
use maysemantic.Prelude.{
  subst, Text, str, true, false, Option, some, none, ◌++◌, ◌≡◌, ◌⊎◌, inl, inr, all, trim, parse_i64,
  is_num_char, arith, starts_with_char, all-show_i64, Option-cases, Bool-cases, show_i64,
}
use maysemantic.Quoted.{read_quoted, read_quoted_closed}
use maysemantic.Ast.Node.{Expr, literal}
use maysemantic.Ast.Combiners.{
  Floats, quote_text, literal_str, literal_num, literal_bool, finite_literal,
}

-- Whatever an untrusted value holds, a reader of standard SQL strings, in which a doubled quote is
-- the only escape, as Postgres reads them, reads the text of the literal that `literal_str` builds as
-- that value, and goes on behind it, unless the text that follows begins with a quote.
pub read_quoted-quote_text :
    (val rest t : Text)
    → literal_str val ≡ literal t
    → starts_with_char 39 rest ≡ false
    → read_quoted 39 (t ++ rest) ≡ some (val, rest)
unfolding quote_text literal_str
read_quoted-quote_text val rest t same h =
    subst (λ u. read_quoted 39 (u ++ rest) ≡ some (val, rest)) (literal-injective same)
      (rw append_assoc (read_quoted_closed 39 val rest h))
  where
    literal-injective : {u v : Text} → literal u ≡ literal v → u ≡ v
    literal-injective e = cc

module _ ⦃F : Floats⦄ where
  finite_literal_num :
      (o : Option F.Float) (e : Expr)
      → finite_literal o ≡ some e
      → (t : Text) × (e ≡ literal t) × (all is_num_char t ≡ true)
  unfolding finite_literal
  finite_literal_num none e h = cc
  finite_literal_num (some f) e h = elim (Bool-cases (F.is_finite f)) [
    | inl p ↦ (F.show_f64 f, ground arith, F.shown f p)
    | inr p ↦ absurd (ground arith)
  ]

  -- A numeric literal that is built from an untrusted value holds digits, `-` and `.` alone.
  pub literal_num_chars :
      (val : Text) (e : Expr)
      → literal_num val ≡ some e
      → (t : Text) × (e ≡ literal t) × (all is_num_char t ≡ true)
  unfolding literal_num
  literal_num_chars val e h = elim (Option-cases (parse_i64 (trim val))) [
    | inl p ↦ finite_literal_num (F.parse_f64 (trim val)) e (rw (p, literal_num) at h)
    | inr (i, p) ↦ (show_i64 i, ground arith, all-show_i64 i)
  ]

-- A literal that `literal_bool` builds is `TRUE` or `FALSE`.
pub literal_bool_keywords :
    (val : Text) (e : Expr)
    → literal_bool val ≡ some e
    → (e ≡ literal (str "TRUE")) ⊎ (e ≡ literal (str "FALSE"))
unfolding literal_bool
literal_bool_keywords val e h = ground arith
