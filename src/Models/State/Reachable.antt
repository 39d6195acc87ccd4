-- ===== src/Models/State/Reachable.antt =====
-- What holds of every state that the manager's operations lead to.
use mathlib.Core.List.{foldl}
use maysemantic.Prelude.{
  Text, true, Option, some, none, List, [], ◌∷◌, ◌≡◌, ◌==◌, All, Result, ok, err, ◌>>=◌, refl, sym,
  subst, upsert, insert, text_key, eq_iff, traverse, >>=-eq-ok, ok-injective, ok_or, Bool-cases,
  inl, inr, arith, if◌then◌else◌,
}
use maysemantic.Models.Core.{SemanticModel, validate}
use maysemantic.Compiler.Lowering.{ModelMap}
use maysemantic.Graph.Engine.{DiGraph, SemanticGraph, GraphError, build_semantic_graph}
use maysemantic.Models.State.{
  SemanticState, StateError, clone, insert_model, keep_graph, from_cache, get_graph, read_model,
  read_file, store, load_from_yaml, load_dir, yaml_error, validation_error,
}

-- A valid model that stands under its own name.
abbrev pub IsEntry : Text × SemanticModel → Type 0
IsEntry (name, m) = (name ≡ m.name) × (validate m ≡ true)

upsert-IsEntry :
    (m : SemanticModel) (ms : ModelMap)
    → validate m ≡ true
    → All IsEntry ms
    → All IsEntry (insert m.name m ms)
unfolding insert upsert
upsert-IsEntry m [] v a = ((refl, v), tt)
upsert-IsEntry m ((k, x) ∷ ms) v (e, a) = elim (Bool-cases (k == m.name)) [
  | inl same ↦ rw same (((eq_iff k m.name).0 same, v), a)
  | inr other ↦ rw other (e, upsert-IsEntry m ms v a)
]

module _ {G : Type 0} where
  inserted :
      (ms : List SemanticModel) (s : SemanticState G)
      → All (λ (m : SemanticModel). validate m ≡ true) ms
      → All IsEntry s.models
      → All IsEntry (foldl insert_model s ms).models
  unfolding insert_model
  inserted [] s v a = a
  inserted (m ∷ ms) s (v, vs) a = inserted ms (insert_model s m) vs (upsert-IsEntry m s.models v a)

  inserted_cache :
      (ms : List SemanticModel) (s : SemanticState G)
      → s.graph_cache ≡ none
      → (foldl insert_model s ms).graph_cache ≡ none
  unfolding insert_model
  inserted_cache [] s h = h
  inserted_cache (m ∷ ms) s h = inserted_cache ms (insert_model s m) h

module _ (parse : Text → Option SemanticModel) where
  read_model_valid :
      (yaml : Text) (m : SemanticModel) → read_model parse yaml ≡ ok m → validate m ≡ true
  unfolding read_model
  read_model_valid yaml m h =
      let (x, _, k) =
        >>=-eq-ok (ok_or (parse yaml) yaml_error)
          (λ model. if validate model then ok model else err validation_error) h in
      checked x k
    where
      checked :
          (x : SemanticModel)
          → (if validate x then ok x else err validation_error) ≡ ok m
          → validate m ≡ true
      checked x k = elim (Bool-cases (validate x)) [
        | inl v ↦ subst (λ z. validate z ≡ true) (ok-injective (rw v at k)) v
        | inr n ↦ absurd (ground arith)
      ]

  read_file_valid :
      (file : Option Text) (m : SemanticModel) → read_file parse file ≡ ok m → validate m ≡ true
  unfolding read_file
  read_file_valid none m h = cc
  read_file_valid (some yaml) m h = read_model_valid yaml m h

  files_valid :
      (files : List (Option Text)) (ms : List SemanticModel)
      → traverse (read_file parse) files ≡ ok ms
      → All (λ (m : SemanticModel). validate m ≡ true) ms
  unfolding traverse
  files_valid [] ms h = subst (All (λ (m : SemanticModel). validate m ≡ true)) (ok-injective h) tt
  files_valid (f ∷ fs) ms h =
      let (m, hm, h₁) = >>=-eq-ok (read_file parse f) _ h in
      let (rest, hr, h₂) = >>=-eq-ok (traverse (read_file parse) fs) _ h₁ in
      subst (All (λ (m : SemanticModel). validate m ≡ true)) (ok-injective h₂)
        (read_file_valid f m hm, files_valid fs rest hr)

module _ ⦃D : DiGraph⦄ where
  -- A graph that is kept is the graph of the models that are there.
  abbrev pub IsCurrent : ModelMap → Option SemanticGraph → Type 0
  IsCurrent models none = Unit {0}
  IsCurrent models (some g) = build_semantic_graph models ≡ ok g

  abbrev pub IsLoaded : SemanticState SemanticGraph → Type 0
  IsLoaded s = All IsEntry s.models × IsCurrent s.models s.graph_cache

  stored :
      (s : SemanticState SemanticGraph) (r : Result StateError (List SemanticModel))
      → ((ms : List SemanticModel) → r ≡ ok ms → All (λ (m : SemanticModel). validate m ≡ true) ms)
      → IsLoaded s
      → IsLoaded (store s r).1
  unfolding store clone
  stored s (err e) v h = h
  stored s (ok ms) v (a, c) = (
    inserted ms (clone s) (v ms refl) a,
    subst (IsCurrent (foldl insert_model (clone s) ms).models)
        (sym (inserted_cache ms (clone s) refl)) tt,
  )

  kept :
      (s : SemanticState SemanticGraph) (r : Result GraphError SemanticGraph)
      → build_semantic_graph s.models ≡ r
      → IsLoaded s
      → IsLoaded (keep_graph s r).1
  unfolding keep_graph
  kept s (ok g) e (a, c) = (a, e)
  kept s (err x) e h = h

  graph_kept :
      (s : SemanticState SemanticGraph) (c : Option SemanticGraph)
      → IsLoaded s
      → IsLoaded (from_cache s c).1
  unfolding from_cache
  graph_kept s (some g) h = h
  graph_kept s none h = kept s (build_semantic_graph s.models) refl h

  kept_result :
      (s : SemanticState SemanticGraph) (r : Result GraphError SemanticGraph)
      → (keep_graph s r).0 ≡ r
  unfolding keep_graph
  kept_result s (ok g) = refl
  kept_result s (err e) = refl

  graph_current :
      (s : SemanticState SemanticGraph) (c : Option SemanticGraph)
      → IsCurrent s.models c
      → (from_cache s c).0 ≡ build_semantic_graph s.models
  unfolding from_cache
  graph_current s (some g) h = sym h
  graph_current s none h = kept_result s (build_semantic_graph s.models)

  module _ (parse : Text → Option SemanticModel) where
    -- The states that the operations lead to from the new state, in any order.
    pub data Reachable : SemanticState SemanticGraph → Type 0 where
      fresh : Reachable (record { models = []; graph_cache = none })
      after_yaml :
          {s : SemanticState SemanticGraph} (yaml : Text)
          → Reachable s
          → Reachable (load_from_yaml parse yaml s).1
      after_dir :
          {s : SemanticState SemanticGraph} (files : List (Option Text))
          → Reachable s
          → Reachable (load_dir parse files s).1
      after_graph : {s : SemanticState SemanticGraph} → Reachable s → Reachable (get_graph s).1

    one_valid :
        (yaml : Text) (ms : List SemanticModel)
        → (read_model parse yaml >>= λ model. ok (model ∷ [])) ≡ ok ms
        → All (λ (m : SemanticModel). validate m ≡ true) ms
    one_valid yaml ms h =
        let (m, hm, h₁) = >>=-eq-ok (read_model parse yaml) (λ model. ok (model ∷ [])) h in
        subst (All (λ (m : SemanticModel). validate m ≡ true)) (ok-injective h₁)
          (read_model_valid parse yaml m hm, tt)

    -- In every state that loading YAML texts and directories and fetching the graph lead to, each
    -- model is valid and stands under its own name, and a graph that is kept is the graph of the
    -- models that are there.
    pub Reachable-IsLoaded : (s : SemanticState SemanticGraph) → Reachable s → IsLoaded s
    unfolding load_from_yaml load_dir get_graph
    Reachable-IsLoaded s fresh = (tt, tt)
    Reachable-IsLoaded s (after_yaml {s = t} yaml r) =
        stored t (read_model parse yaml >>= λ model. ok (model ∷ [])) (one_valid yaml)
          (Reachable-IsLoaded t r)
    Reachable-IsLoaded s (after_dir {s = t} files r) =
        stored t (traverse (read_file parse) files) (files_valid parse files)
          (Reachable-IsLoaded t r)
    Reachable-IsLoaded s (after_graph {s = t} r) =
        graph_kept t t.graph_cache (Reachable-IsLoaded t r)

    -- In every state that those operations lead to, fetching the graph gives what building it anew
    -- from the models gives, the error included.
    get_graph_current :
        (s : SemanticState SemanticGraph)
        → Reachable s
        → (get_graph s).0 ≡ build_semantic_graph s.models
    unfolding get_graph
    get_graph_current s r = graph_current s s.graph_cache (Reachable-IsLoaded s r).1
