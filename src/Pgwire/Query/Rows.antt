-- ===== src/Pgwire/Query/Rows.antt =====
-- The rows of an answer, may_pgwire/src/handler.rs, against those that the connector yields.
use maysemantic.Pgwire.Query.{
  Encoder, Encoding, encoded, encode_row, written, failed, out_of_range, column_names, Response,
  show_value, Row, answer_rows, QueryResult, rest_rows, query,
}
use mathlib.Core.Path.{ap₂}
use maysemantic.Prelude.{
  >>=-eq-ok, ◌↔◌, ok-injective, ◌≡◌, Text, ℕ, map, sym, ap, refl, ok, err, [], ◌∷◌, List, ◌∙◌, ltb,
  true, length, Bool-cases, inl, inr, ◌+◌,
}

encoded-ok : (e : Encoding) (t text : Text) → encoded e t ≡ ok text → (e ≡ written) × (text ≡ t)
unfolding encoded
encoded-ok written t text h = (refl, sym (ok-injective h))
encoded-ok failed t text h = cc
encoded-ok out_of_range t text h = cc

module _ ⦃E : Encoder⦄ (show_f64 : ℕ → Text) where
  -- the texts of rows
  abbrev pub shown : List Row → List (List Text)
  shown rows = map (λ row. map (show_value show_f64) row) rows

  -- the columns of the first row
  abbrev pub columns : List Row → List Text
  columns [] = []
  columns (row ∷ rows) = column_names 0 row

  -- how many they are
  abbrev pub width : List Row → ℕ
  width [] = 0
  width (row ∷ rows) = length row

  -- from the i-th value on there is a column for each value of a row, and it can be encoded
  abbrev pub FitsFrom : ℕ → ℕ → Row → Type 0
  FitsFrom n i [] = Unit
  FitsFrom n i (v ∷ row) =
      (ltb i n ≡ true)
      × (E.encode_field n i (show_value show_f64 v) ≡ written)
      × FitsFrom n (i + 1) row

  abbrev pub AllFit : ℕ → List Row → Type 0
  AllFit n [] = Unit
  AllFit n (row ∷ rows) = FitsFrom n 0 row × AllFit n rows

  written-ltb : (n i : ℕ) (t : Text) → E.encode_field n i t ≡ written → ltb i n ≡ true
  written-ltb n i t w = elim (Bool-cases (ltb i n)) [
    | inl e ↦ e
    | inr e ↦ let panics : E.encode_field n i t ≡ out_of_range = E.beyond n i t e in cc
  ]

  encode_row-ok :
      (n i : ℕ) (row : Row) (texts : List Text)
      → encode_row show_f64 n i row ≡ ok texts
      → FitsFrom n i row × (texts ≡ map (show_value show_f64) row)
  unfolding encode_row
  encode_row-ok n i [] texts h = (tt, sym (ok-injective h))
  encode_row-ok n i (v ∷ row) texts h =
      let (t, ht, h₁) = >>=-eq-ok (encoded (E.encode_field n i (show_value show_f64 v)) _) _ h in
      let (rest, hr, h₂) = >>=-eq-ok (encode_row show_f64 n (i + 1) row) _ h₁ in
      let (w, same) = encoded-ok _ _ t ht in
      let (fits, same_rest) = encode_row-ok n (i + 1) row rest hr in
      ((written-ltb n i _ w, w, fits), sym (ok-injective h₂) ∙ ap₂ ◌∷◌ same same_rest)

  encode_row-FitsFrom :
      (n i : ℕ) (row : Row)
      → FitsFrom n i row
      → encode_row show_f64 n i row ≡ ok (map (show_value show_f64) row)
  unfolding encode_row encoded
  encode_row-FitsFrom n i [] f = refl
  encode_row-FitsFrom n i (v ∷ row) f = rw (f.1, encode_row-FitsFrom n (i + 1) row f.2) refl

  rest_rows-ok :
      (n : ℕ) (yielded : QueryResult) (rows : List (List Text))
      → rest_rows show_f64 n yielded ≡ ok rows
      → (rs : List Row) × (yielded ≡ map ok rs) × AllFit n rs × (rows ≡ shown rs)
  unfolding rest_rows
  rest_rows-ok n [] rows h = ([], refl, tt, sym (ok-injective h))
  rest_rows-ok n (err e ∷ rest) rows h = cc
  rest_rows-ok n (ok row ∷ rest) rows h =
      let (texts, ht, h₁) = >>=-eq-ok (encode_row show_f64 n 0 row) _ h in
      let (others, hr, h₂) = >>=-eq-ok (rest_rows show_f64 n rest) _ h₁ in
      let (fits, same) = encode_row-ok n 0 row texts ht in
      let (rs, all_ok, all_fit, same_rest) = rest_rows-ok n rest others hr in
      (
        row ∷ rs,
        ap (λ t. ok row ∷ t) all_ok,
        (fits, all_fit),
        sym (ok-injective h₂) ∙ ap₂ ◌∷◌ same same_rest,
      )

  rest_rows-AllFit :
      (n : ℕ) (rs : List Row) → AllFit n rs → rest_rows show_f64 n (map ok rs) ≡ ok (shown rs)
  unfolding rest_rows
  rest_rows-AllFit n [] f = refl
  rest_rows-AllFit n (row ∷ rs) f =
      rw (encode_row-FitsFrom n 0 row f.0, rest_rows-AllFit n rs f.1) refl

  answered :
      (yielded : QueryResult) (answer : Response)
      → answer_rows show_f64 yielded ≡ ok answer
      → (rs : List Row) × (yielded ≡ map ok rs)
        × AllFit (width rs) rs
        × (answer ≡ query (columns rs) (shown rs))
  unfolding answer_rows
  answered [] answer h = ([], refl, tt, sym (ok-injective h))
  answered (err e ∷ rest) answer h = cc
  answered (ok row ∷ rest) answer h =
      let (texts, ht, h₁) = >>=-eq-ok (encode_row show_f64 (length row) 0 row) _ h in
      let (others, hr, h₂) = >>=-eq-ok (rest_rows show_f64 (length row) rest) _ h₁ in
      let (fits, same) = encode_row-ok (length row) 0 row texts ht in
      let (rs, all_ok, all_fit, same_rest) = rest_rows-ok (length row) rest others hr in
      (
        row ∷ rs,
        ap (λ t. ok row ∷ t) all_ok,
        (fits, all_fit),
        sym (ok-injective h₂) ∙ ap (query (column_names 0 row)) (ap₂ ◌∷◌ same same_rest),
      )

  -- An answer with rows is given exactly when the stream yields no error, no row has more values
  -- than the first, and the encoder can write the text of every value: it then has every row that was
  -- yielded, in order, each value as its text, and a column name for each value of the first row.
  pub answer_rows_iff :
      (yielded : QueryResult) (answer : Response)
      → (answer_rows show_f64 yielded ≡ ok answer) ↔ (
          (rs : List Row) × (yielded ≡ map ok rs)
          × AllFit (width rs) rs
          × (answer ≡ query (columns rs) (shown rs)))
  answer_rows_iff yielded answer =
      (answered yielded answer, λ p. rw (p.1, p.3) (all_answered p.0 p.2))
    where
      all_answered :
          (rs : List Row)
          → AllFit (width rs) rs
          → answer_rows show_f64 (map ok rs) ≡ ok (query (columns rs) (shown rs))
      all_answered [] f = unfold answer_rows in refl
      all_answered (row ∷ rs) f =
          unfold answer_rows in
          rw (encode_row-FitsFrom (length row) 0 row f.0, rest_rows-AllFit (length row) rs f.1) refl
