-- ===== src/Graph/Engine/Builds.antt =====
-- When the graph can be built.
use maysemantic.Prelude.{
  refl, Text, Bool, true, false, Option, none, some, List, [], ◌∷◌, ◌≡◌, ◌==◌, ◌&&◌, ◌||◌, any, all,
  lookup, lookup-insert, text_key, values, is_ok, is_ok-bind, is_ok-map, ok_or, fold_result, arith,
  ℕ, Result,
}
use maysemantic.Models.Core.{Entity, JoinDefinition, SemanticModel}
use maysemantic.Compiler.Lowering.{ModelMap}
use maysemantic.Graph.Engine.{
  DiGraph, SemanticGraph, add_entity, add_entities, add_models, add_join, add_joins,
  build_semantic_graph, node_of, missing_node,
}

-- Whether one of the models has an entity of that name.
abbrev pub has_entity : List SemanticModel → Text → Bool
has_entity models name =
    any (λ (m : SemanticModel). any (λ (e : Entity). e.name == name) m.entities) models

-- Whether both ends of a join are entities of the models.
abbrev pub joins_entities : List SemanticModel → JoinDefinition → Bool
joins_entities models j = has_entity models j.left_entity && has_entity models j.right_entity

abbrev known : Option ℕ → Bool
known none = false
known (some i) = true

is_ok-ok_or {κ} : {E : Type κ} (o : Option ℕ) (e : E) → is_ok (ok_or o e) ≡ known o
is_ok-ok_or none e = refl
is_ok-ok_or (some i) e = refl

is_ok-fold {ℓ κ ι} :
    {E : Type κ} {A : Type ℓ} {B : Type ι} (f : B → A → Result E B) (p : A → Bool)
    → ((b : B) (a : A) → is_ok (f b a) ≡ p a)
    → (xs : List A) (b : B) → is_ok (fold_result f b xs) ≡ all p xs
unfolding fold_result all
is_ok-fold f p h [] b = refl
is_ok-fold f p h (x ∷ xs) b = is_ok-bind (f b x) _ (p x) (all p xs) (h b x) (is_ok-fold f p h xs)

module _ ⦃D : DiGraph⦄ where
  index-entities :
      (g : SemanticGraph) (es : List Entity) (name : Text)
      → known (lookup name (add_entities g es).1)
        ≡ (known (lookup name g.1) || any (λ (e : Entity). e.name == name) es)
  unfolding add_entities add_entity any
  index-entities g [] name = ground arith
  index-entities g (e ∷ es) name = ground (
    arith,
    index-entities (add_entity g e) es name,
    lookup-insert name e.name (D.add_node g.0 (node_of e)).1 g.1,
  )

  index-models :
      (g : SemanticGraph) (ms : List SemanticModel) (name : Text)
      → known (lookup name (add_models g ms).1) ≡ (known (lookup name g.1) || has_entity ms name)
  unfolding add_models any
  index-models g [] name = ground arith
  index-models g (m ∷ ms) name =
      ground
        (arith, index-models (add_entities g m.entities) ms name, index-entities g m.entities name)

  is_ok-add_join :
      (indices : List (Text × ℕ)) (g : D.Graph) (j : JoinDefinition)
      → is_ok (add_join indices g j)
        ≡ (known (lookup j.left_entity indices) && known (lookup j.right_entity indices))
  unfolding add_join
  is_ok-add_join indices g j =
      is_ok-bind (ok_or (lookup j.left_entity indices) _) _ _ _ (is_ok-ok_or _ _) (λ a.
        is_ok-map (ok_or (lookup j.right_entity indices) (missing_node j.right_entity)) _ _
          (is_ok-ok_or _ _))

  is_ok-add_joins :
      (indices : List (Text × ℕ)) (models : List SemanticModel)
      → ((name : Text) → known (lookup name indices) ≡ has_entity models name)
      → (g : D.Graph) (m : SemanticModel)
      → is_ok (add_joins indices g m) ≡ all (joins_entities models) m.joins
  unfolding add_joins
  is_ok-add_joins indices models h g m =
      is_ok-fold (add_join indices) (joins_entities models)
        (λ g j. rw (is_ok-add_join indices g j, h j.left_entity, h j.right_entity) refl) m.joins g

  abbrev start : ModelMap → SemanticGraph
  start models = add_models (D.new_graph, []) (values models)

  -- The graph is built exactly when both ends of every join of every model are entities of the
  -- models, whatever the graph library does.
  pub is_ok-build_semantic_graph :
      (models : ModelMap)
      → is_ok (build_semantic_graph models)
        ≡ all (λ m. all (joins_entities (values models)) m.joins) (values models)
  unfolding build_semantic_graph any lookup
  is_ok-build_semantic_graph models =
      is_ok-map (fold_result (add_joins (start models).1) (start models).0 (values models)) _ _ (
        is_ok-fold (add_joins (start models).1) (λ m. all (joins_entities (values models)) m.joins)
          (λ g m.
            is_ok-add_joins (start models).1 (values models)
              (λ name. index-models (D.new_graph, []) (values models) name) g m)
          (values models) (start models).0)
