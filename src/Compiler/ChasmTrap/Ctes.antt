-- ===== src/Compiler/ChasmTrap/Ctes.antt =====
-- The common table expressions that pre-aggregation adds.
use mathlib.Core.Logic.{⊎_elim}
use mathlib.Core.List.{append_assoc, append-nil, Memᴰ}
use mathlib.Core.List.Memᴰ
use maysemantic.Prelude.{
  nat_eq, str, contains_char, split, ok-injective, ok, ℕ, Option, eq_refl, ◌∙◌, subst, inr, sym,
  inl, ap, Bool-cases, Text, true, false, List, [], ◌∷◌, ◌++◌, ◌≡◌, refl, contains, text_key,
  contains-append, arith, eq_iff,
}
use maysemantic.Ast.Node
use maysemantic.Ast.Node.{OrderByExpr, OptNode, SqlNode, Nodes, OptNodes}
use maysemantic.Compiler.ChasmTrap.{
  last_or, unwrap_ctes, build_cte_query, FactPreAgg, agg_alias, cte_alias, cte_aliases, push_node,
  fact_cte, add_ctes,
}

abbrev pub IsDistinct : List Text → Type 0
IsDistinct [] = Unit
IsDistinct (x ∷ xs) = (contains xs x ≡ false) × IsDistinct xs

IsDistinct-append :
    (xs : List Text) (a : Text)
    → IsDistinct xs
    → contains xs a ≡ false
    → IsDistinct (xs ++ (a ∷ []))
unfolding contains
IsDistinct-append [] a d n = (refl, tt)
IsDistinct-append (x ∷ xs) a d n = (
  ground (arith, contains-append xs (a ∷ []) x, eq_iff x a, eq_iff a x),
  IsDistinct-append xs a d.1 (ground arith),
)

aliases-push_node :
    (ns : Nodes) (n : SqlNode) → cte_aliases (push_node ns n) ≡ cte_aliases ns ++ cte_alias n
unfolding cte_aliases push_node
aliases-push_node Node.end n = append-nil (cte_alias n)
aliases-push_node (Node.node m ns) n =
    ap (λ r. cte_alias m ++ r) (aliases-push_node ns n) ∙ sym (append_assoc (cte_alias m) _ _)

-- the aliases that the loop keeps are those of the list that it builds
abbrev Tracks : List Text → Nodes → Type 0
Tracks existing ctes = (a : Text) → contains existing a ≡ contains (cte_aliases ctes) a

module _ (existing : List Text) (ctes : Nodes) (fact : FactPreAgg) where
  pushed :
      cte_aliases (push_node ctes (fact_cte fact)) ≡ cte_aliases ctes ++ (agg_alias fact.table ∷ [])
  unfolding fact_cte cte_alias
  pushed = aliases-push_node ctes (fact_cte fact)

  Tracks-push :
      Tracks existing ctes
      → Tracks (agg_alias fact.table ∷ existing) (push_node ctes (fact_cte fact))
  unfolding contains
  Tracks-push t a = ground (
    arith,
    t a,
    ap (λ l. contains l a) pushed,
    contains-append (cte_aliases ctes) (agg_alias fact.table ∷ []) a,
  )

pushed_self :
    (ctes : Nodes) (fact : FactPreAgg)
    → contains (cte_aliases (push_node ctes (fact_cte fact))) (agg_alias fact.table) ≡ true
unfolding contains
pushed_self ctes fact = ground (
  arith,
  ap (λ l. contains l (agg_alias fact.table)) (pushed [] ctes fact),
  contains-append (cte_aliases ctes) (agg_alias fact.table ∷ []) (agg_alias fact.table),
  eq_refl (agg_alias fact.table),
)

add_ctes-IsDistinct :
    (facts : List FactPreAgg) (existing : List Text) (ctes : Nodes)
    → Tracks existing ctes
    → IsDistinct (cte_aliases ctes)
    → IsDistinct (cte_aliases (add_ctes facts existing ctes))
unfolding add_ctes
add_ctes-IsDistinct [] existing ctes t d = d
add_ctes-IsDistinct (fact ∷ facts) existing ctes t d =
    elim (Bool-cases (contains existing (agg_alias fact.table))) [
      | inl e ↦ rw e (add_ctes-IsDistinct facts existing ctes t d)
      | inr e ↦ rw e (
          add_ctes-IsDistinct facts (agg_alias fact.table ∷ existing)
            (push_node ctes (fact_cte fact)) (Tracks-push existing ctes fact t)
            (subst IsDistinct (sym (pushed existing ctes fact)) (
              IsDistinct-append (cte_aliases ctes) (agg_alias fact.table) d
                (sym (t (agg_alias fact.table)) ∙ e))))
    ]

add_ctes_keeps :
    (facts : List FactPreAgg) (existing : List Text) (ctes : Nodes) (a : Text)
    → contains (cte_aliases ctes) a ≡ true
    → contains (cte_aliases (add_ctes facts existing ctes)) a ≡ true
unfolding add_ctes
add_ctes_keeps [] existing ctes a h = h
add_ctes_keeps (fact ∷ facts) existing ctes a h =
    elim (Bool-cases (contains existing (agg_alias fact.table))) [
      | inl e ↦ rw e (add_ctes_keeps facts existing ctes a h)
      | inr e ↦ rw e (
          add_ctes_keeps facts (agg_alias fact.table ∷ existing) (push_node ctes (fact_cte fact)) a
            (ground (
              arith,
              ap (λ l. contains l a) (pushed existing ctes fact),
              contains-append (cte_aliases ctes) (agg_alias fact.table ∷ []) a,
            )))
    ]

-- A fact finds a CTE under its alias.
add_ctes_covers :
    (fact : FactPreAgg) (facts : List FactPreAgg) (existing : List Text) (ctes : Nodes)
    → Tracks existing ctes
    → Memᴰ fact facts
    → contains (cte_aliases (add_ctes facts existing ctes)) (agg_alias fact.table) ≡ true
unfolding add_ctes
add_ctes_covers fact [] existing ctes t m = absurd (Memᴰ.not-nil m)
add_ctes_covers fact (x ∷ facts) existing ctes t m =
    elim (Bool-cases (contains existing (agg_alias x.table))) [
      | inl e ↦ rw e (
          ⊎_elim
            (λ p. add_ctes_keeps facts existing ctes (agg_alias fact.table) (
              subst (λ f. contains (cte_aliases ctes) (agg_alias f.table) ≡ true) (sym p)
                (sym (t (agg_alias x.table)) ∙ e)))
            (add_ctes_covers fact facts existing ctes t) (Memᴰ.cases_cons m))
      | inr e ↦ rw e (
          ⊎_elim
            (λ p.
              add_ctes_keeps facts (agg_alias x.table ∷ existing) (push_node ctes (fact_cte x))
                (agg_alias fact.table)
                (subst
                  (λ f.
                    contains (cte_aliases (push_node ctes (fact_cte x))) (agg_alias f.table) ≡ true)
                  (sym p) (pushed_self ctes x)))
            (add_ctes_covers fact facts (agg_alias x.table ∷ existing) (push_node ctes (fact_cte x))
              (Tracks-push existing ctes x t))
            (Memᴰ.cases_cons m))
    ]

-- The common table expressions of a query.
abbrev pub ctes_of : SqlNode → Nodes
ctes_of (Node.query (Node.present_list ns) sel src w g h order limit offset) = ns
ctes_of _ = Node.end

-- When the aliases of a query's CTEs are distinct, pre-aggregation keeps them distinct, and every
-- fact has a CTE under its alias.
pub build_cte_query_aliases :
    (ctes : OptNodes) (sel src : SqlNode) (w g h : OptNode) (o : List OrderByExpr)
    (l off : Option ℕ) (facts : List FactPreAgg) (q : SqlNode)
    → build_cte_query (Node.query ctes sel src w g h o l off) facts ≡ ok q
    → IsDistinct (cte_aliases (unwrap_ctes ctes))
    → IsDistinct (cte_aliases (ctes_of q))
      × ((fact : FactPreAgg)
          → Memᴰ fact facts
          → contains (cte_aliases (ctes_of q)) (agg_alias fact.table) ≡ true)
unfolding build_cte_query
build_cte_query_aliases ctes sel src w g h o l off facts q e d =
    let ns = unwrap_ctes ctes in
    let result = ap ctes_of (ok-injective e) in
    (
      subst (λ ns. IsDistinct (cte_aliases ns)) result
          (add_ctes-IsDistinct facts (cte_aliases ns) ns (λ a. refl) d),
      λ fact m.
          subst (λ ns. contains (cte_aliases ns) (agg_alias fact.table) ≡ true) result
            (add_ctes_covers fact facts (cte_aliases ns) ns (λ a. refl) m),
    )

split_plain : (t : Text) → contains_char b'.' t ≡ false → split b'.' t ≡ t ∷ []
unfolding split contains_char
split_plain [] h = refl
split_plain (c ∷ t) h = elim (Bool-cases (nat_eq c b'.')) [
  | inl e ↦ ground arith
  | inr e ↦ rw (e, split_plain t (rw e at h)) refl
]

-- the last part is what stands behind the last separator
split_qualified :
    (schema t : Text)
    → contains_char b'.' t ≡ false
    → (p : Text) × (ps : List Text) × (split b'.' (schema ++ (b'.' ∷ t)) ≡ p ∷ (ps ++ (t ∷ [])))
unfolding split
split_qualified [] t h = ([], [], rw (split_plain t h) refl)
split_qualified (c ∷ schema) t h =
    let (p, ps, e) = split_qualified schema t h in
    elim (Bool-cases (nat_eq c b'.')) [
      | inl dot ↦ ([], p ∷ ps, rw (dot, e) refl)
      | inr other ↦ (c ∷ p, ps, rw (other, e) refl)
    ]

last_or-append : (fallback t : Text) (ps : List Text) → last_or fallback (ps ++ (t ∷ [])) ≡ t
unfolding last_or
last_or-append fallback t [] = refl
last_or-append fallback t (p ∷ ps) = last_or-append p t ps

agg_alias_qualified :
    (schema t : Text)
    → contains_char b'.' t ≡ false
    → agg_alias (schema ++ (b'.' ∷ t)) ≡ t ++ str "_agg"
unfolding agg_alias last_or
agg_alias_qualified schema t h =
    let (p, ps, e) = split_qualified schema t h in rw (e, last_or-append p t ps) refl

-- Two facts whose tables have the same name in different schemas share one alias, and the CTE of the
-- second is left out.
pub build_cte_query_shared_alias :
    (root : SqlNode) (f₁ f₂ : FactPreAgg) (schema₁ schema₂ t : Text)
    → contains_char b'.' t ≡ false
    → f₁.table ≡ schema₁ ++ (b'.' ∷ t)
    → f₂.table ≡ schema₂ ++ (b'.' ∷ t)
    → build_cte_query root (f₁ ∷ f₂ ∷ []) ≡ build_cte_query root (f₁ ∷ [])
unfolding build_cte_query contains
build_cte_query_shared_alias (Node.query ctes sel src w g h o l off) f₁ f₂ schema₁ schema₂ t plain
      e₁ e₂ =
    let same : agg_alias f₁.table ≡ agg_alias f₂.table =
      rw (e₁, e₂)
        (agg_alias_qualified schema₁ t plain ∙ sym (agg_alias_qualified schema₂ t plain)) in
    ground (arith, same, eq_iff (agg_alias f₁.table) (agg_alias f₂.table))
build_cte_query_shared_alias root f₁ f₂ schema₁ schema₂ t plain e₁ e₂ = refl
