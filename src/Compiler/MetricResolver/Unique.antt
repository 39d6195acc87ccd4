-- ===== src/Compiler/MetricResolver/Unique.antt =====
-- What a name resolves to is the only candidate.
use mathlib.Core.Logic.{⊎_elim}
use mathlib.Core.List.{Memᴰ}
use mathlib.Core.List.Memᴰ
use maysemantic.Prelude.{
  >>=-eq-ok, inr, subst, ok-injective, inl, ap, ◌∙◌, Option-cases, Bool-cases, sym, Text, Bool,
  true, false, Option, none, some, List, [], ◌∷◌, ◌≡◌, refl, ◌==◌, find, any, filter, length,
  nat_eq, is_ok, ok, err, Result, arith, eq_iff, if◌then◌else◌, contains, text_key, map, >>=-eq-ok,
  ok_or, ◌>>=◌,
}
use maysemantic.Models.Core.{Dimension, Entity, SemanticModel}
use maysemantic.Compiler.MetricResolver.{
  resolve_measure, add_match, metric_not_found, resolve_measure, ResolvedMetric, entity_matches,
  only_match, resolve_dimension, resolve_dimensions, resolve, MetricResolutionError,
}

-- The entities that have a dimension of that name.
abbrev pub carriers : Text → List Entity → List Entity
carriers dim_name es = filter (λ e. any (λ d. d.name == dim_name) e.dimensions) es

abbrev found {ℓ} : {A : Type ℓ} → Option A → Bool
found none = false
found (some a) = true

found-find : {A : Type 0} (p : A → Bool) (xs : List A) → found (find p xs) ≡ any p xs
unfolding find any
found-find p [] = refl
found-find p (x ∷ xs) = ground (arith, found-find p xs)

find_sound :
    {A : Type 0} (p : A → Bool) (xs : List A) (a : A)
    → find p xs ≡ some a
    → Memᴰ a xs × (p a ≡ true)
unfolding find
find_sound p [] a h = cc
find_sound p (x ∷ xs) a h = elim (Bool-cases (p x)) [
  | inl e ↦
      let same : x ≡ a = ground arith in (Memᴰ.head (sym same), subst (λ z. p z ≡ true) same e)
  | inr e ↦ let (m, q) = find_sound p xs a (ground arith) in (Memᴰ.tail m, q)
]

module _ {A : Type 0} (items : Entity → List A) (p : A → Bool) where
  length-entity_matches :
      (es : List Entity)
      → length (entity_matches items p es) ≡ length (filter (λ e. any p (items e)) es)
  unfolding entity_matches filter
  length-entity_matches [] = refl
  length-entity_matches (e ∷ es) = ground (arith, length-entity_matches es, found-find p (items e))

  mem-entity_matches :
      (es : List Entity) (m : Entity × A)
      → Memᴰ m (entity_matches items p es)
      → Memᴰ m.0 es × Memᴰ m.1 (items m.0) × (p m.1 ≡ true)
  unfolding entity_matches
  mem-entity_matches [] m h = absurd (Memᴰ.not-nil h)
  mem-entity_matches (e ∷ es) m h = elim (Option-cases (find p (items e))) [
    | inl n ↦
        let (a, b, c) =
          mem-entity_matches es m
            (subst (λ o. Memᴰ m (add_match items p e o (entity_matches items p es))) n h) in
        (Memᴰ.tail a, b, c)
    | inr (x, s) ↦
        ⊎_elim
          (λ q.
            let (a, b) = find_sound p (items e) x s in
            subst (λ (z : Entity × A). Memᴰ z.0 (e ∷ es) × Memᴰ z.1 (items z.0) × (p z.1 ≡ true))
              (sym q) (Memᴰ.head refl, a, b))
          (λ t. let (a, b, c) = mem-entity_matches es m t in (Memᴰ.tail a, b, c))
          (Memᴰ.cases_cons
            (subst (λ o. Memᴰ m (add_match items p e o (entity_matches items p es))) s h))
  ]

module _ {A : Type 0} (missing : MetricResolutionError)
    (ambiguous : List Text → MetricResolutionError) where
  is_ok-only_match :
      (ms : List (Entity × A)) → is_ok (only_match missing ambiguous ms) ≡ nat_eq (length ms) 1
  unfolding only_match
  is_ok-only_match [] = ground arith
  is_ok-only_match (m ∷ []) = ground arith
  is_ok-only_match (m ∷ n ∷ ms) = ground arith

  only_match_mem :
      (ms : List (Entity × A)) (m : Entity × A) → only_match missing ambiguous ms ≡ ok m → Memᴰ m ms
  unfolding only_match
  only_match_mem [] m h = cc
  only_match_mem (x ∷ []) m h = Memᴰ.head (sym (ok-injective h))
  only_match_mem (x ∷ y ∷ ms) m h = cc

module _ (model : SemanticModel) (metric_name dim_name : Text) where
  -- A dimension's name resolves exactly when one entity alone of the model has a dimension of that
  -- name.
  is_ok-resolve_dimension :
      is_ok (resolve_dimension model metric_name dim_name)
      ≡ nat_eq (length (carriers dim_name model.entities)) 1
  unfolding resolve_dimension
  is_ok-resolve_dimension =
      is_ok-only_match _ _ _
      ∙ ap (λ n. nat_eq n 1)
          (length-entity_matches (λ e. e.dimensions) (λ d. d.name == dim_name) model.entities)

  -- What a dimension's name resolves to is an entity of the model and a dimension of that entity,
  -- of that name.
  resolve_dimension_sound :
      (e : Entity) (d : Dimension)
      → resolve_dimension model metric_name dim_name ≡ ok (e, d)
      → Memᴰ e model.entities × Memᴰ d e.dimensions × (d.name ≡ dim_name)
  unfolding resolve_dimension
  resolve_dimension_sound e d h =
      let (a, b, c) =
        mem-entity_matches (λ e. e.dimensions) (λ d. d.name == dim_name) model.entities (e, d)
          (only_match_mem _ _ _ (e, d) h) in
      (a, b, (eq_iff d.name dim_name).0 c)

-- The names that are not in `seen`, each at its first occurrence.
abbrev pub first_occurrences : List Text → List Text → List Text
first_occurrences seen [] = []
first_occurrences seen (d ∷ ds) =
    if contains seen d then first_occurrences seen ds else d ∷ first_occurrences (d ∷ seen) ds

cons-eq-ok {ℓ κ} :
    {E : Type κ} {A : Type ℓ} (m : Result E A) (n : Result E (List A)) {xs : List A}
    → (do a ← m; ys ← n; ok (a ∷ ys)) ≡ ok xs
    → (a : A) × (ys : List A) × (m ≡ ok a) × (n ≡ ok ys) × (xs ≡ a ∷ ys)
cons-eq-ok (ok a) (ok ys) h = (a, ys, refl, refl, sym (ok-injective h))
cons-eq-ok (ok a) (err e) h = cc
cons-eq-ok (err e) n h = cc

ok_or-eq-ok {ℓ κ} :
    {E : Type κ} {A : Type ℓ} (o : Option A) (e : E) {a : A} → ok_or o e ≡ ok a → o ≡ some a
ok_or-eq-ok none e h = cc
ok_or-eq-ok (some x) e h = ap some (ok-injective h)

names_from :
    (model : SemanticModel) (metric_name : Text) (seen ds : List Text)
    (rs : List (Entity × Dimension))
    → resolve_dimensions model metric_name seen ds ≡ ok rs
    → map (λ r. r.1.name) rs ≡ first_occurrences seen ds
unfolding resolve_dimensions
names_from model metric_name seen [] rs h =
    ap (map (λ (r : Entity × Dimension). r.1.name)) (sym (ok-injective h))
names_from model metric_name seen (d ∷ ds) rs h = elim (Bool-cases (contains seen d)) [
  | inl e ↦ rw e (names_from model metric_name seen ds rs (ground arith))
  | inr e ↦
      let ((r₁, d₁), rs₂, h₁, h₂, q) =
        cons-eq-ok (resolve_dimension model metric_name d)
          (resolve_dimensions model metric_name (d ∷ seen) ds) (rw e at h) in
      let (_, _, named) = resolve_dimension_sound model metric_name d r₁ d₁ h₁ in
      rw (q, e, named, names_from model metric_name (d ∷ seen) ds rs₂ h₂) refl
]

-- When a metric resolves, it is the metric of that name, and its dimensions are those that it
-- lists, in its order, each once.
resolve_dimension_names :
    (model : SemanticModel) (metric_name : Text) (r : ResolvedMetric)
    → resolve model metric_name ≡ ok r
    → Memᴰ r.metric model.metrics
      × (r.metric.name ≡ metric_name)
      × (map (λ d. d.1.name) r.dimensions ≡ first_occurrences [] r.metric.dimensions)
unfolding resolve
resolve_dimension_names model metric_name r h =
    let (m, hm, h₁) =
      >>=-eq-ok
        (ok_or (find (λ m. m.name == metric_name) model.metrics) (metric_not_found metric_name))
        (λ m. do
          z ← resolve_measure model m
          dims ← resolve_dimensions model m.name [] m.dimensions
          ok (record { metric = m; measure_entity = z.0; measure = z.1; dimensions = dims }))
        h in
    let ((e, s), he, h₂) =
      >>=-eq-ok (resolve_measure model m)
        (λ z. do
          dims ← resolve_dimensions model m.name [] m.dimensions
          ok (record { metric = m; measure_entity = z.0; measure = z.1; dimensions = dims }))
        h₁ in
    let (ds, hds, h₃) =
      >>=-eq-ok (resolve_dimensions model m.name [] m.dimensions)
        (λ ds. ok (record { metric = m; measure_entity = e; measure = s; dimensions = ds })) h₂ in
    let (a, b) = find_sound (λ m. m.name == metric_name) model.metrics m (ok_or-eq-ok _ _ hm) in
    subst
      (λ (r : ResolvedMetric).
        Memᴰ r.metric model.metrics
        × (r.metric.name ≡ metric_name)
        × (map (λ d. d.1.name) r.dimensions ≡ first_occurrences [] r.metric.dimensions))
      (ok-injective h₃)
      (a, (eq_iff m.name metric_name).0 b, names_from model m.name [] m.dimensions ds hds)
