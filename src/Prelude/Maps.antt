-- ===== src/Prelude/Maps.antt =====
-- Hash maps as association lists in their order of iteration, and hash sets as lists.
use mathlib.Core.Path.{◌≡◌, refl}
use mathlib.Core.Logic.{◌↔◌}
use mathlib.Core.Bool.{Bool, true, false, ◌&&◌, ◌||◌}
use mathlib.Core.List.{List, [], ◌∷◌, ◌++◌}
use mathlib.Core.Option.{Option, none, some}
use native.Mathlib.Omega.{arith}
use maysemantic.Prelude.Tests.{if◌then◌else◌}
use maysemantic.Prelude.Strings.{Text, ◌==◌, eq_iff}

-- The derived `PartialEq` of a key type.
pub record Eq {ℓ} (A : Type ℓ) : Type ℓ where
  pub matches : A → A → Bool
  pub matches_iff : (a b : A) → (matches a b ≡ true) ↔ (a ≡ b)

instance abbrev pub text_key : Eq Text
text_key = record { matches = ◌==◌; matches_iff = eq_iff }

abbrev pub pair_matches : Text × Text → Text × Text → Bool
pair_matches (a, b) (c, d) = a == c && b == d

pub pair_matches_iff : (p q : Text × Text) → (pair_matches p q ≡ true) ↔ (p ≡ q)
pair_matches_iff (a, b) (c, d) = ground (arith, eq_iff a c, eq_iff b d)

instance abbrev pub pair_key : Eq (Text × Text)
pair_key = record { matches = pair_matches; matches_iff = pair_matches_iff }

module _ {ℓ κ} {K : Type ℓ} {V : Type κ} ⦃e : Eq K⦄ where
  -- `map.get(k)`
  unfoldable pub lookup : K → List (K × V) → Option V
  lookup k [] = none
  lookup k ((j, v) ∷ m) = if e.matches j k then some v else lookup k m

  -- `*map.entry(k).or_insert(d)` put through `f`
  unfoldable pub upsert : K → V → (V → V) → List (K × V) → List (K × V)
  upsert k d f [] = (k, f d) ∷ []
  upsert k d f ((j, v) ∷ m) = if e.matches j k then (j, f v) ∷ m else (j, v) ∷ upsert k d f m

  -- `map.insert(k, v)`
  unfoldable pub insert : K → V → List (K × V) → List (K × V)
  unfolding upsert
  insert k v m = upsert k v (λ _. v) m

abbrev pub get_or {ℓ} : {A : Type ℓ} → A → Option A → A
get_or d none = d
get_or d (some a) = a

module _ {ℓ κ} {K : Type ℓ} {V : Type κ} ⦃e : Eq K⦄ where
  pub lookup-upsert :
      (k j : K) (d : V) (f : V → V) (m : List (K × V))
      → lookup k (upsert j d f m)
        ≡ (if e.matches j k then some (f (get_or d (lookup j m))) else lookup k m)
  unfolding lookup upsert
  lookup-upsert k j d f [] = ground arith
  lookup-upsert k j d f ((i, v) ∷ m) =
      ground
        (arith, lookup-upsert k j d f m, e.matches_iff i j, e.matches_iff i k, e.matches_iff j k)

  pub lookup-insert :
      (k j : K) (v : V) (m : List (K × V))
      → lookup k (insert j v m) ≡ (if e.matches j k then some v else lookup k m)
  unfolding insert
  lookup-insert k j v m = lookup-upsert k j v (λ _. v) m

-- `HashMap::values` and `keys`
abbrev pub values {ℓ κ} : {K : Type ℓ} {V : Type κ} → List (K × V) → List V
values [] = []
values ((_, v) ∷ m) = v ∷ values m

module _ {ℓ} {A : Type ℓ} ⦃e : Eq A⦄ where
  -- `set.contains(&a)`
  unfoldable pub contains : List A → A → Bool
  contains [] a = false
  contains (x ∷ xs) a = e.matches x a || contains xs a

  -- `set.insert(a)`, less its result
  unfoldable pub insert_set : A → List A → List A
  unfolding contains
  insert_set a xs = if contains xs a then xs else xs ++ (a ∷ [])

  pub contains-append :
      (xs ys : List A) (a : A) → contains (xs ++ ys) a ≡ (contains xs a || contains ys a)
  unfolding contains
  contains-append [] ys a = refl
  contains-append (x ∷ xs) ys a = ground (arith, contains-append xs ys a)

  pub contains-insert_set :
      (a b : A) (xs : List A) → contains (insert_set a xs) b ≡ (contains xs b || e.matches a b)
  unfolding insert_set
  contains-insert_set a b xs = ground (arith, contains-append xs (a ∷ []) b, e.matches_iff a b)
