-- ===== src/Compiler/ChasmTrap/Reaggregate.antt =====
-- Aggregating the groups and then their results is aggregating all rows.
use mathlib.Core.List.{append-nil}
use Prim.Native.Nat.{min, max}
use maysemantic.Prelude.{
  length-append, ◌||◌, if◌then◌else◌, nat_eq, ℕ, suc, ◌+◌, ◌/◌, Bool, true, false, List, [], ◌∷◌,
  ◌++◌, ◌≡◌, refl, length, arith,
}
use maysemantic.Models.Core.{AggregationType}
use maysemantic.Compiler.ChasmTrap.Rewrite.{reaggregate}

total : ℕ → List ℕ → ℕ
total x [] = x
total x (y ∷ ys) = x + total y ys

least : ℕ → List ℕ → ℕ
least x [] = x
least x (y ∷ ys) = min x (least y ys)

greatest : ℕ → List ℕ → ℕ
greatest x [] = x
greatest x (y ∷ ys) = max x (greatest y ys)

occurs : ℕ → List ℕ → Bool
occurs x [] = false
occurs x (y ∷ ys) = nat_eq x y || occurs x ys

kinds : List ℕ → ℕ
kinds [] = 0
kinds (x ∷ xs) = if occurs x xs then kinds xs else suc (kinds xs)

-- The value of an aggregate over the column of a group, which holds at least one row.
unfoldable pub eval : AggregationType → ℕ → List ℕ → ℕ
unfolding total least greatest kinds occurs
eval AggregationType.sum x xs = total x xs
eval AggregationType.count x xs = suc (length xs)
eval AggregationType.average x xs = total x xs / suc (length xs)
eval AggregationType.min x xs = least x xs
eval AggregationType.max x xs = greatest x xs
eval AggregationType.distinct_count x xs = kinds (x ∷ xs)

-- The rows of all groups.
abbrev pub rows : List (ℕ × List ℕ) → List ℕ
rows [] = []
rows ((x, xs) ∷ gs) = x ∷ (xs ++ rows gs)

-- The result of an aggregate for each group.
abbrev pub per_group : AggregationType → List (ℕ × List ℕ) → List ℕ
per_group a [] = []
per_group a ((x, xs) ∷ gs) = eval a x xs ∷ per_group a gs

total-append : (x y : ℕ) (xs ys : List ℕ) → total x (xs ++ (y ∷ ys)) ≡ total x xs + total y ys
unfolding total
total-append x y [] ys = refl
total-append x y (z ∷ xs) ys = omega (arith, total-append z y xs ys)

least-append : (x y : ℕ) (xs ys : List ℕ) → least x (xs ++ (y ∷ ys)) ≡ min (least x xs) (least y ys)
unfolding least
least-append x y [] ys = refl
least-append x y (z ∷ xs) ys = omega (arith, least-append z y xs ys)

greatest-append :
    (x y : ℕ) (xs ys : List ℕ) → greatest x (xs ++ (y ∷ ys)) ≡ max (greatest x xs) (greatest y ys)
unfolding greatest
greatest-append x y [] ys = refl
greatest-append x y (z ∷ xs) ys = omega (arith, greatest-append z y xs ys)

-- The aggregates that can be put together from the groups by one more aggregate.
abbrev pub splits : AggregationType → Bool
splits AggregationType.average = false
splits AggregationType.distinct_count = false
splits _ = true

sum_of_sums :
    (x : ℕ) (xs : List ℕ) (gs : List (ℕ × List ℕ))
    → total (total x xs) (per_group AggregationType.sum gs) ≡ total x (xs ++ rows gs)
unfolding eval
sum_of_sums x xs [] = rw append-nil refl
sum_of_sums x xs ((y, ys) ∷ gs) =
    omega (arith, sum_of_sums y ys gs, total-append x y xs (ys ++ rows gs))

sum_of_counts :
    (x : ℕ) (xs : List ℕ) (gs : List (ℕ × List ℕ))
    → total (suc (length xs)) (per_group AggregationType.count gs) ≡ suc (length (xs ++ rows gs))
unfolding eval
sum_of_counts x xs [] = rw append-nil refl
sum_of_counts x xs ((y, ys) ∷ gs) =
    omega (arith, sum_of_counts y ys gs, length-append xs (y ∷ (ys ++ rows gs)))

min_of_mins :
    (x : ℕ) (xs : List ℕ) (gs : List (ℕ × List ℕ))
    → least (least x xs) (per_group AggregationType.min gs) ≡ least x (xs ++ rows gs)
unfolding eval
min_of_mins x xs [] = rw append-nil refl
min_of_mins x xs ((y, ys) ∷ gs) =
    omega (arith, min_of_mins y ys gs, least-append x y xs (ys ++ rows gs))

max_of_maxes :
    (x : ℕ) (xs : List ℕ) (gs : List (ℕ × List ℕ))
    → greatest (greatest x xs) (per_group AggregationType.max gs) ≡ greatest x (xs ++ rows gs)
unfolding eval
max_of_maxes x xs [] = rw append-nil refl
max_of_maxes x xs ((y, ys) ∷ gs) =
    omega (arith, max_of_maxes y ys gs, greatest-append x y xs (ys ++ rows gs))

-- SUM, COUNT, MIN and MAX of all rows are the aggregate that `reaggregate` names of the same
-- aggregate of each group, when the groups hold the rows and none is empty.
pub eval-reaggregate :
    (a : AggregationType) (x : ℕ) (xs : List ℕ) (gs : List (ℕ × List ℕ))
    → splits a ≡ true
    → eval (reaggregate a) (eval a x xs) (per_group a gs) ≡ eval a x (xs ++ rows gs)
unfolding eval reaggregate
eval-reaggregate AggregationType.sum x xs gs h = sum_of_sums x xs gs
eval-reaggregate AggregationType.count x xs gs h = sum_of_counts x xs gs
eval-reaggregate AggregationType.min x xs gs h = min_of_mins x xs gs
eval-reaggregate AggregationType.max x xs gs h = max_of_maxes x xs gs
eval-reaggregate AggregationType.average x xs gs h = cc
eval-reaggregate AggregationType.distinct_count x xs gs h = cc
