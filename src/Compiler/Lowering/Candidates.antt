-- ===== src/Compiler/Lowering/Candidates.antt =====
-- Which declarations a reference may mean, and what is to come of them: the description against which
-- the lowering of references, may_core/src/compiler/lowering.rs, is proved.
use maysemantic.Prelude.{
  arith, inr, eq_iff, inl, ◌==◌, map, ok, true, err, Bool-cases, false, Result, none, ◌∷◌, [], ◌≡◌,
  Bool, List, filter, Text, Option,
}
use maysemantic.Ast.Node.{Expr}
use maysemantic.Compiler.Lowering.{some, LoweringError, select_hits, entity_not_found}

-- a declaration of the model that a reference names, or of any model where it names none
abbrev pub IsOf : Option Text → Text → Type 0
IsOf none m = Unit
IsOf (some named) m = m ≡ named

-- Of some declarations, each with its model, those that are of the named model.
pub data Candidates {ℓ} {A : Type ℓ} (model : Option Text)
    : List (Text × A) → List (Text × A) → Type ℓ where
  none_left : Candidates model [] []
  kept :
      {all candidates : List (Text × A)} (m : Text) (a : A)
      → IsOf model m
      → Candidates model all candidates
      → Candidates model ((m, a) ∷ all) ((m, a) ∷ candidates)
  passed :
      {all candidates : List (Text × A)} (m : Text) (a : A)
      → ¬ IsOf model m
      → Candidates model all candidates
      → Candidates model ((m, a) ∷ all) candidates

-- What the candidates for a name of an entity lead to: an error for none, which says whether the
-- entity is unknown or only the name, the value of the only one, or an error that lists the models of
-- several.
pub data Verdict {A : Type 0} (value : A → Expr) (entity : Text) (not_found : LoweringError)
    (ambiguous : List Text → LoweringError) (is_known : Bool)
    : List (Text × A) → Result LoweringError Expr → Type 0 where
  no_entity :
      is_known ≡ false
      → Verdict value entity not_found ambiguous is_known [] (err (entity_not_found entity))
  no_name : is_known ≡ true → Verdict value entity not_found ambiguous is_known [] (err not_found)
  only_one :
      (m : Text) (a : A)
      → Verdict value entity not_found ambiguous is_known ((m, a) ∷ []) (ok (value a))
  several :
      (x y : Text × A) (rest : List (Text × A))
      → Verdict value entity not_found ambiguous is_known
          (x ∷ y ∷ rest)
          (err (ambiguous (x.0 ∷ y.0 ∷ map (λ hit. hit.0) rest)))

not_same : (m named : Text) → (m == named) ≡ false → ¬ (m ≡ named)
not_same m named e same = let t : (m == named) ≡ true = (eq_iff m named).1 same in ground arith

pub select_hits-Candidates :
    {A : Type 0} (model : Option Text) (hits : List (Text × A))
    → Candidates model hits (select_hits model hits)
unfolding select_hits filter
select_hits-Candidates none [] = none_left
select_hits-Candidates none ((m, a) ∷ hits) = kept m a tt (select_hits-Candidates none hits)
select_hits-Candidates (some named) [] = none_left
select_hits-Candidates {A} (some named) ((m, a) ∷ hits) = elim (Bool-cases (m == named)) [
  | inl e ↦ rw e (kept m a ((eq_iff m named).0 e) (select_hits-Candidates (some named) hits))
  | inr e ↦ rw e (passed m a (not_same m named e) (select_hits-Candidates (some named) hits))
]
