-- ===== src/Compiler/Lowering/Declared.antt =====
-- A plain enumeration of the models, and how an index of hits that is filled entity by entity
-- relates to it.
use mathlib.Core.List.{foldl, append-nil, append_assoc}
use maysemantic.Prelude.{
  Text, List, [], ◌∷◌, ◌++◌, ◌≡◌, sym, if◌then◌else◌, ◌==◌, lookup, lookup-upsert, get_or, text_key,
  pair_key, pair_matches, arith,
}
use maysemantic.Models.Core.{Entity, SemanticModel}
use maysemantic.Compiler.Lowering.{ModelMap, push_hit}

abbrev pub at {ℓ} :
    {A : Type ℓ} → Text × Text → List ((Text × Text) × List (Text × A)) → List (Text × A)
at k index = get_or [] (lookup k index)

at-push_hit {ℓ} :
    {A : Type ℓ} (k j : Text × Text) (hit : Text × A)
    (index : List ((Text × Text) × List (Text × A)))
    → at k (push_hit j hit index)
      ≡ (if pair_matches j k then at k index ++ (hit ∷ []) else at k index)
at-push_hit k j hit index =
    ground
      (arith, lookup-upsert k j [] (λ hits. hits ++ (hit ∷ [])) index, pair_key.matches_iff j k)

-- One kind of named item of the entities, with the value that its index keeps.
module _ {X A : Type 0} (name : X → Text) (value : X → A) (items : Entity → List X) where
  abbrev pub named : Text → Text → List X → List (Text × A)
  named m d [] = []
  named m d (x ∷ xs) = if name x == d then (m, value x) ∷ named m d xs else named m d xs

  abbrev pub in_entities : Text → Text × Text → List Entity → List (Text × A)
  in_entities m k [] = []
  in_entities m k (e ∷ es) =
      if e.name == k.0 then named m k.1 (items e) ++ in_entities m k es else in_entities m k es

  -- Every item of that entity and name, in the order of the models, each with its model.
  abbrev pub declared : Text × Text → ModelMap → List (Text × A)
  declared k [] = []
  declared k ((m, model) ∷ ms) = in_entities m k model.entities ++ declared k ms

  abbrev pub Index : Type 0
  Index = List ((Text × Text) × List (Text × A))

  unfoldable pub push_item : Text → Entity → Index → X → Index
  push_item m e index x = push_hit (e.name, name x) (m, value x) index

  unfoldable pub push_entity : Text → Index → Entity → Index
  push_entity m index e = foldl (push_item m e) index (items e)

  unfoldable pub push_model : Index → Text × SemanticModel → Index
  push_model index (m, model) = foldl (push_entity m) index model.entities

  at-push_items :
      (m : Text) (e : Entity) (k : Text × Text) (xs : List X) (index : Index)
      → at k (foldl (push_item m e) index xs)
        ≡ (if e.name == k.0 then at k index ++ named m k.1 xs else at k index)
  unfolding push_item
  at-push_items m e k [] index = ground (arith, append-nil (at k index))
  at-push_items m e k (x ∷ xs) index = ground (
    arith,
    at-push_items m e k xs (push_item m e index x),
    at-push_hit k (e.name, name x) (m, value x) index,
    append_assoc (at k index) ((m, value x) ∷ []) (named m k.1 xs),
  )

  at-push_entities :
      (m : Text) (k : Text × Text) (es : List Entity) (index : Index)
      → at k (foldl (push_entity m) index es) ≡ at k index ++ in_entities m k es
  unfolding push_entity
  at-push_entities m k [] index = sym (append-nil (at k index))
  at-push_entities m k (e ∷ es) index = ground (
    arith,
    at-push_entities m k es (push_entity m index e),
    at-push_items m e k (items e) index,
    append_assoc (at k index) (named m k.1 (items e)) (in_entities m k es),
  )

  pub at-push_models :
      (k : Text × Text) (ms : ModelMap) (index : Index)
      → at k (foldl push_model index ms) ≡ at k index ++ declared k ms
  unfolding push_model
  at-push_models k [] index = sym (append-nil (at k index))
  at-push_models k ((m, model) ∷ ms) index = ground (
    arith,
    at-push_models k ms (push_model index (m, model)),
    at-push_entities m k model.entities index,
    append_assoc (at k index) (in_entities m k model.entities) (declared k ms),
  )
