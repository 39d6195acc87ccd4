-- ===== src/Rest/Query/Mapping.antt =====
-- `SemanticRequest::try_from` of may_rest/src/routes/query.rs against the contract that its
-- comments state.

-- no limit, or one between 1 and `max_limit`
use maysemantic.Rest.Query.{
  max_limit, SemanticRequest, check_limit, TimeRange, not_blank, granularity_of, one_metric,
  QueryRequest, try_from,
}
use maysemantic.Prelude.{
  ok-injective, false, Option-cases, trim, ◌∙◌, ◌↔◌, arith, >>=-eq-ok, is_empty, ◌≤◌, List, ◌≡◌, ℕ,
  Text, Option, ok, some, none, inl, inr, [], ◌∷◌, refl, sym, ap,
}

abbrev pub IsLimit : Option ℕ → Type 0
IsLimit none = Unit
IsLimit (some l) = (1 ≤ l) × (l ≤ max_limit)

-- no time range, or one without bounds
abbrev pub IsUnbounded : Option TimeRange → Type 0
IsUnbounded none = Unit
IsUnbounded (some range) = (range.start ≡ none) × (range.end ≡ none)

-- the granularity that the payload asks for
abbrev pub granularity : Option TimeRange → Option Text
granularity none = none
granularity (some range) = range.granularity

-- A payload of the contract: one metric, by a name that is not blank.
pub record IsQuery (req : QueryRequest) (name : Text) : Type 0 where
  pub single : req.metrics ≡ name ∷ []
  pub named : is_empty (trim name) ≡ false
  pub limited : IsLimit req.limit
  pub unbounded : IsUnbounded req.time_range

-- the request of the compiler with the payload's fields
abbrev pub mapped : QueryRequest → Text → SemanticRequest
mapped req name = record {
  metric_name = name;
  dimensions = req.dimensions;
  filters = req.filters;
  time_granularity = granularity req.time_range;
  limit = req.limit;
}

not_blank-ok : (name : Text) → not_blank name ≡ ok tt → is_empty (trim name) ≡ false
unfolding not_blank
not_blank-ok name h = ground arith

check_limit-ok : (limit : Option ℕ) → check_limit limit ≡ ok tt → IsLimit limit
unfolding check_limit
check_limit-ok none h = tt
check_limit-ok (some l) h = ground arith

granularity_of-ok :
    (range : Option TimeRange) (g : Option Text)
    → granularity_of range ≡ ok g
    → IsUnbounded range × (g ≡ granularity range)
unfolding granularity_of
granularity_of-ok none g h = (tt, ground arith)
granularity_of-ok (some r) g h = elim (Option-cases r.start) [
  | inr (s, e) ↦ ground arith
  | inl e ↦ elim (Option-cases r.end) [ inr (t, f) ↦ ground arith | inl f ↦ ground arith ]
]

one_metric-ok :
    (metrics : List Text) (name : Text) → one_metric metrics ≡ ok name → metrics ≡ name ∷ []
unfolding one_metric
one_metric-ok [] name h = cc
one_metric-ok (n ∷ []) name h = cc
one_metric-ok (n ∷ m ∷ rest) name h = cc

check_limit-IsLimit : (limit : Option ℕ) → IsLimit limit → check_limit limit ≡ ok tt
unfolding check_limit
check_limit-IsLimit none h = refl
check_limit-IsLimit (some l) h = ground arith

granularity_of-IsUnbounded :
    (range : Option TimeRange) → IsUnbounded range → granularity_of range ≡ ok (granularity range)
unfolding granularity_of
granularity_of-IsUnbounded none h = refl
granularity_of-IsUnbounded (some r) h = ground arith

try_from-IsQuery :
    (req : QueryRequest) (name : Text) → IsQuery req name → try_from req ≡ ok (mapped req name)
unfolding try_from one_metric not_blank
try_from-IsQuery req name q =
    rw
      (
        q.single,
        q.named,
        check_limit-IsLimit req.limit q.limited,
        granularity_of-IsUnbounded req.time_range q.unbounded,
      )
      refl

try_from-ok :
    (req : QueryRequest) (r : SemanticRequest)
    → try_from req ≡ ok r
    → (name : Text) × IsQuery req name × (r ≡ mapped req name)
unfolding try_from
try_from-ok req r h =
    let (name, e, h₁) = >>=-eq-ok (one_metric req.metrics) _ h in
    let (_, e₂, h₂) = >>=-eq-ok (not_blank name) _ h₁ in
    let (_, e₃, h₃) = >>=-eq-ok (check_limit req.limit) _ h₂ in
    let (g, e₄, h₄) = >>=-eq-ok (granularity_of req.time_range) _ h₃ in
    let (free, same) = granularity_of-ok req.time_range g e₄ in
    (
      name,
      record {
        single = one_metric-ok req.metrics name e;
        named = not_blank-ok name e₂;
        limited = check_limit-ok req.limit e₃;
        unbounded = free;
      },
      rw (sym same) (sym (ok-injective h₄)),
    )

-- The mapping accepts exactly the payloads of the contract (one metric by a name that is not blank,
-- a limit between 1 and 10,000 or none, a time range without bounds or none), and drops no field.
pub try_from_iff :
    (req : QueryRequest) (r : SemanticRequest)
    → (try_from req ≡ ok r) ↔ ((name : Text) × IsQuery req name × (r ≡ mapped req name))
try_from_iff req r = (try_from-ok req r, λ p. try_from-IsQuery req p.0 p.1 ∙ ap ok (sym p.2))
