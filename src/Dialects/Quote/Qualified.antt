-- ===== src/Dialects/Quote/Qualified.antt =====
-- Names that are qualified by dots.
use maysemantic.Prelude.{
  nat_eq_iff, subst, inr, inl, Bool-cases, ℕ, Text, false, List, [], ◌∷◌, ◌≡◌, refl, nat_eq, arith,
  map, contains_char, split, join_with,
}
use maysemantic.Dialects.Quote.{Dialect, quote_identifier, quote_schema_qualified}

split_none : (c : ℕ) (s : Text) → contains_char c s ≡ false → split c s ≡ s ∷ []
unfolding split contains_char
split_none c [] h = refl
split_none c (x ∷ s) h = ground (arith, split_none c s)

-- A name is quoted segment by segment, also where there is one segment alone: the test for a dot
-- changes nothing but the work.
quote_schema_qualified-eq :
    (d : Dialect) (ident : Text)
    → quote_schema_qualified d ident
      ≡ join_with (b'.' ∷ []) (map (quote_identifier d) (split b'.' ident))
unfolding quote_schema_qualified
quote_schema_qualified-eq d ident = elim (Bool-cases (contains_char b'.' ident)) [
  | inl e ↦ rw e refl
  | inr e ↦ rw e (rw split_none (unfold join_with in refl))
]

split_parts : (c : ℕ) (s : Text) → (p : Text) × (ps : List Text) × (split c s ≡ p ∷ ps)
unfolding split
split_parts c [] = ([], [], refl)
split_parts c (x ∷ s) =
    let (p, ps, e) = split_parts c s in
    elim (Bool-cases (nat_eq x c)) [
      | inl y ↦ ([], p ∷ ps, ground arith)
      | inr n ↦ (x ∷ p, ps, ground arith)
    ]

join_push_front :
    (c : ℕ) (sep p : Text) (ps : List Text)
    → join_with sep ((c ∷ p) ∷ ps) ≡ c ∷ join_with sep (p ∷ ps)
unfolding join_with
join_push_front c sep p [] = refl
join_push_front c sep p (q ∷ ps) = refl

-- Splitting a text and joining its parts gives the text.
pub join_with-split : (c : ℕ) (s : Text) → join_with (c ∷ []) (split c s) ≡ s
unfolding split join_with
join_with-split c [] = refl
join_with-split c (x ∷ s) =
    let (p, ps, e) = split_parts c s in
    let ih : join_with (c ∷ []) (p ∷ ps) ≡ s =
      subst (λ q. join_with (c ∷ []) q ≡ s) e (join_with-split c s) in
    elim (Bool-cases (nat_eq x c)) [
      | inl y ↦ ground (arith, nat_eq_iff x c)
      | inr n ↦ ground (arith, join_push_front x (c ∷ []) p ps)
    ]
