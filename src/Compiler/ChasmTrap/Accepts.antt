-- ===== src/Compiler/ChasmTrap/Accepts.antt =====
-- Exactly when pre-aggregation succeeds, and what it leaves alone.
use maysemantic.Prelude.{
  ◌>>=◌, Bool, true, false, not, ◌&&◌, List, [], ◌∷◌, ◌≡◌, refl, Option, none, some, all, find,
  is_ok, arith,
}
use maysemantic.Ast.Node
use maysemantic.Ast.Node.{SqlNode}
use maysemantic.Compiler.Fanout.{PathClassification, single_fact, multi_fact_join, pure_dimension}
use maysemantic.Compiler.ChasmTrap.{
  FactPreAgg, MeasureProjection, is_count_distinct, unsupported_measure, build_cte_query,
}
use maysemantic.Compiler.ChasmTrap.Rewrite.{inject_ctes, rewrite_outer_query}

-- No measure of the facts counts distinct values.
abbrev pub reaggregable : List FactPreAgg → Bool
reaggregable facts = all (λ f. all (λ m. not (is_count_distinct m.agg)) f.measures) facts

abbrev is_select_query : SqlNode → Bool
is_select_query (Node.query ctes (Node.select es) src w g h o l off) = true
is_select_query _ = false

abbrev is_nonempty {ℓ} : {A : Type ℓ} → List A → Bool
is_nonempty [] = false
is_nonempty (x ∷ xs) = true

abbrev pub accepts : PathClassification → List FactPreAgg → SqlNode → Bool
accepts (multi_fact_join tables) facts root =
    is_nonempty facts && (reaggregable facts && is_select_query root)
accepts _ facts root = true

abbrev is_none {ℓ} : {A : Type ℓ} → Option A → Bool
is_none none = true
is_none (some a) = false

find_none :
    (ms : List MeasureProjection)
    → is_none (find (λ m. is_count_distinct m.agg) ms) ≡ all (λ m. not (is_count_distinct m.agg)) ms
unfolding find all
find_none [] = refl
find_none (m ∷ ms) = ground (arith, find_none ms)

unsupported_none :
    (facts : List FactPreAgg) → is_none (unsupported_measure facts) ≡ reaggregable facts
unfolding unsupported_measure all
unsupported_none [] = refl
unsupported_none (f ∷ facts) = ground (arith, unsupported_none facts, find_none f.measures)

rewrites :
    (facts : List FactPreAgg) (root : SqlNode)
    → is_ok (build_cte_query root facts >>= rewrite_outer_query facts) ≡ is_select_query root
unfolding build_cte_query rewrite_outer_query
rewrites facts (Node.query ctes (Node.select es) src w g h o l off) = refl
rewrites facts (Node.query ctes sel src w g h o l off) = refl
rewrites facts root = refl

-- On a path of several facts pre-aggregation succeeds exactly when there are facts, none of their
-- measures counts distinct values, and the tree is a query with a SELECT clause. On any other path
-- it always succeeds.
pub is_ok-inject_ctes :
    (root : SqlNode) (path : PathClassification) (facts : List FactPreAgg)
    → is_ok (inject_ctes root path facts) ≡ accepts path facts root
unfolding inject_ctes
is_ok-inject_ctes root single_fact facts = refl
is_ok-inject_ctes root pure_dimension facts = refl
is_ok-inject_ctes root (multi_fact_join tables) [] = refl
is_ok-inject_ctes root (multi_fact_join tables) (f ∷ facts) =
    ground (arith, unsupported_none (f ∷ facts), rewrites (f ∷ facts) root)
