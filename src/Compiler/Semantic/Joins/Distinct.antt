-- ===== src/Compiler/Semantic/Joins/Distinct.antt =====
-- The hops that are collected are distinct.
use mathlib.Core.List.{foldl}
use maysemantic.Prelude.{
  Text, Bool, true, false, List, [], ◌∷◌, ◌++◌, ◌≡◌, ◌==◌, ◌&&◌, ◌||◌, not, any, Bool-cases, inl,
  inr, fold_result_keeps, ok, refl, arith, >>=-eq-ok, map_err, subst, ok-injective,
}
use maysemantic.Models.Core.{Dimension, Entity}
use maysemantic.Graph.Engine.{DiGraph, SemanticGraph}
use maysemantic.Graph.Resolver.{ResolvedJoin, find_join_path_resolved}
use maysemantic.Compiler.Semantic.{join_resolution}
use maysemantic.Compiler.Semantic.Joins.{same_hop, push_join, add_path, collect_joins}

-- No hop stands after another one between the same two entities.
abbrev pub are_distinct : List ResolvedJoin → Bool
are_distinct [] = true
are_distinct (j ∷ js) = not (any (same_hop j) js) && are_distinct js

any-snoc :
    (p : ResolvedJoin → Bool) (xs : List ResolvedJoin) (x : ResolvedJoin)
    → any p (xs ++ (x ∷ [])) ≡ (any p xs || p x)
unfolding any
any-snoc p [] x = ground arith
any-snoc p (y ∷ ys) x = ground (arith, any-snoc p ys x)

distinct_snoc :
    (js : List ResolvedJoin) (j : ResolvedJoin)
    → are_distinct js ≡ true
    → any (λ existing. same_hop existing j) js ≡ false
    → are_distinct (js ++ (j ∷ [])) ≡ true
unfolding any
distinct_snoc [] j d h = refl
distinct_snoc (x ∷ xs) j d h = ground (arith, any-snoc (same_hop x) xs j, distinct_snoc xs j)

distinct-push_join :
    (js : List ResolvedJoin) (j : ResolvedJoin)
    → are_distinct js ≡ true
    → are_distinct (push_join js j) ≡ true
unfolding push_join
distinct-push_join js j d = elim (Bool-cases (any (λ existing. same_hop existing j) js)) [
  | inl e ↦ rw e d
  | inr e ↦ rw e (distinct_snoc js j d e)
]

distinct_pushed :
    (js path : List ResolvedJoin)
    → are_distinct js ≡ true
    → are_distinct (foldl push_join js path) ≡ true
distinct_pushed js [] d = d
distinct_pushed js (p ∷ ps) d = distinct_pushed (push_join js p) ps (distinct-push_join js p d)

module _ ⦃D : DiGraph⦄ (graph : SemanticGraph) (base : Text) where
  distinct-add_path :
      (js : List ResolvedJoin) (x : Entity × Dimension) (js' : List ResolvedJoin)
      → add_path graph base js x ≡ ok js'
      → are_distinct js ≡ true
      → are_distinct js' ≡ true
  unfolding add_path
  distinct-add_path js (e, dim) js' h d = elim (Bool-cases (e.name == base)) [
    | inl same ↦ subst (λ z. are_distinct z ≡ true) (ok-injective (rw same at h)) d
    | inr other ↦
        let (path, found, done) =
          >>=-eq-ok (map_err join_resolution (find_join_path_resolved graph base e.name))
            (λ path. ok (foldl push_join js path)) (rw other at h) in
        subst (λ z. are_distinct z ≡ true) (ok-injective done) (distinct_pushed js path d)
  ]

  -- The hops that are collected for the dimensions of a metric are distinct: none stands twice
  -- between the same two entities.
  collect_joins_distinct :
      (dimensions : List (Entity × Dimension)) (js : List ResolvedJoin)
      → collect_joins graph base dimensions ≡ ok js
      → are_distinct js ≡ true
  unfolding collect_joins
  collect_joins_distinct dimensions js h =
      fold_result_keeps (add_path graph base) (λ z. are_distinct z ≡ true) distinct-add_path
        dimensions [] js h refl
