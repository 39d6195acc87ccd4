-- ===== src/Prelude/Lists.antt =====
-- Lists under native numbers and Boolean predicates: the iterator methods that the source uses.
use Prim.Native.Nat.{ℕ, suc, ◌+◌}
use mathlib.Core.Path.{◌≡◌, refl, ap}
use mathlib.Core.Logic.{◌⊎◌, inl, inr}
use mathlib.Core.Bool.{Bool, true, false, ◌&&◌, ◌||◌}
use mathlib.Core.List.{List, [], ◌∷◌, ◌++◌, map}
use mathlib.Core.Option.{Option, none, some}
use native.Mathlib.Omega.{arith}
use mathlib.Core.List.{Memᴰ}
use mathlib.Core.List.Memᴰ
use mathlib.Core.Logic.{⊎_elim}
use mathlib.Core.Path.{subst}
use maysemantic.Prelude.Tests.{if◌then◌else◌, Bool-cases}

module _ {ℓ} {A : Type ℓ} where
  abbrev pub length : List A → ℕ
  length [] = 0
  length (_ ∷ xs) = suc (length xs)

  -- `iter().any(p)`
  unfoldable pub any : (A → Bool) → List A → Bool
  any p [] = false
  any p (x ∷ xs) = p x || any p xs

  -- `iter().all(p)`
  unfoldable pub all : (A → Bool) → List A → Bool
  all p [] = true
  all p (x ∷ xs) = p x && all p xs

  -- `iter().find(p)`
  unfoldable pub find : (A → Bool) → List A → Option A
  find p [] = none
  find p (x ∷ xs) = if p x then some x else find p xs

  -- `iter().filter(p)`
  unfoldable pub filter : (A → Bool) → List A → List A
  filter p [] = []
  filter p (x ∷ xs) = let rest = filter p xs in if p x then x ∷ rest else rest

  -- A predicate that holds at each element.
  abbrev pub All {κ} : (A → Type κ) → List A → Type κ
  All P [] = Unit
  All P (x ∷ xs) = P x × All P xs

  -- A predicate that holds at some element, with the element.
  abbrev pub Any : (A → Type 0) → List A → Type 0
  Any P [] = ⊥
  Any P (x ∷ xs) = P x ⊎ Any P xs

  pub length-append : (xs ys : List A) → length (xs ++ ys) ≡ length xs + length ys
  length-append [] ys = omega arith
  length-append (x ∷ xs) ys = omega (arith, length-append xs ys)

  pub filter-append :
      (p : A → Bool) (xs ys : List A) → filter p (xs ++ ys) ≡ filter p xs ++ filter p ys
  unfolding filter
  filter-append p [] ys = refl
  filter-append p (x ∷ xs) ys = ground (arith, filter-append p xs ys)

pub length-map {ℓ κ} :
    {A : Type ℓ} {B : Type κ} (f : A → B) (xs : List A) → length (map f xs) ≡ length xs
length-map f [] = refl
length-map f (x ∷ xs) = ap suc (length-map f xs)

module _ {ℓ} {A : Type ℓ} where
  pub all-append : (p : A → Bool) (xs ys : List A) → all p (xs ++ ys) ≡ (all p xs && all p ys)
  unfolding all
  all-append p [] ys = refl
  all-append p (x ∷ xs) ys = ground (arith, all-append p xs ys)

  pub all-filter : (p q : A → Bool) (xs : List A) → all p xs ≡ true → all p (filter q xs) ≡ true
  unfolding all filter
  all-filter p q [] h = refl
  all-filter p q (x ∷ xs) h = ground (arith, all-filter p q xs)

module _ {ℓ} {A : Type ℓ} (le : A → A → Bool) where
  -- `sort_by`, which is stable
  unfoldable pub insert_sorted : A → List A → List A
  insert_sorted a [] = a ∷ []
  insert_sorted a (x ∷ xs) = if le a x then a ∷ x ∷ xs else x ∷ insert_sorted a xs

  unfoldable pub sort_by : List A → List A
  unfolding insert_sorted
  sort_by [] = []
  sort_by (x ∷ xs) = insert_sorted x (sort_by xs)

  pub mem-insert_sorted : (a b : A) (xs : List A) → Memᴰ b (a ∷ xs) → Memᴰ b (insert_sorted a xs)
  unfolding insert_sorted
  mem-insert_sorted a b [] m = m
  mem-insert_sorted a b (x ∷ xs) m = elim (Bool-cases (le a x)) [
    | inl e ↦ rw e m
    | inr e ↦ rw e (
        ⊎_elim (λ p. Memᴰ.tail (mem-insert_sorted a b xs (Memᴰ.head p)))
          (λ r.
            ⊎_elim (λ p. Memᴰ.head p) (λ t. Memᴰ.tail (mem-insert_sorted a b xs (Memᴰ.tail t)))
              (Memᴰ.cases_cons r))
          (Memᴰ.cases_cons m))
  ]

  -- Sorting keeps every element.
  pub mem-sort_by : (b : A) (xs : List A) → Memᴰ b xs → Memᴰ b (sort_by xs)
  unfolding sort_by
  mem-sort_by b [] m = m
  mem-sort_by b (x ∷ xs) m =
      mem-insert_sorted x b (sort_by xs)
        (⊎_elim Memᴰ.head (λ t. Memᴰ.tail (mem-sort_by b xs t)) (Memᴰ.cases_cons m))

module _ {ℓ} {A : Type ℓ} where
  pub Memᴰ-filter :
      (p : A → Bool) (a : A) (xs : List A) → Memᴰ a xs → p a ≡ true → Memᴰ a (filter p xs)
  unfolding filter
  Memᴰ-filter p a [] m h = m
  Memᴰ-filter p a (x ∷ xs) m h =
      ⊎_elim (λ e. rw (subst (λ z. p z ≡ true) e h) (Memᴰ.head e))
        (λ t. elim (Bool-cases (p x)) [
          | inl e ↦ rw e (Memᴰ.tail (Memᴰ-filter p a xs t h))
          | inr e ↦ rw e (Memᴰ-filter p a xs t h)
        ])
        (Memᴰ.cases_cons m)

  -- A test that some element passes, passed by the elements equal to `a` alone.
  pub mem_of_any :
      (p : A → Bool) (a : A) (xs : List A)
      → ((x : A) → p x ≡ true → a ≡ x)
      → any p xs ≡ true
      → Memᴰ a xs
  unfolding any
  mem_of_any p a [] only h = cc
  mem_of_any p a (x ∷ xs) only h = elim (Bool-cases (p x)) [
    | inl e ↦ Memᴰ.head (only x e)
    | inr e ↦ Memᴰ.tail (mem_of_any p a xs only (ground arith))
  ]
