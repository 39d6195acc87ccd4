-- ===== src/Models/State/Directory.antt =====
-- Loading a directory, against loading its files one by one.
use mathlib.Core.List.{foldl}
use maysemantic.Prelude.{
  Text, Option, some, List, [], ◌∷◌, ◌≡◌, map, Result, ok, err, ◌>>=◌, ok-injective, >>=-eq-ok,
  traverse, refl, sym, ap, ◌∙◌,
}
use maysemantic.Models.Core.{SemanticModel}
use maysemantic.Models.State.{
  SemanticState, StateError, clone, insert_model, read_file, store, load_from_yaml, load_dir,
}

module _ {G : Type 0} (parse : Text → Option SemanticModel) where
  -- Texts that are loaded one after the other.
  abbrev pub load_each : List Text → SemanticState G → SemanticState G
  load_each [] s = s
  load_each (yaml ∷ yamls) s = load_each yamls (load_from_yaml parse yaml s).1

  stored_error :
      (s : SemanticState G) (r : Result StateError (List SemanticModel)) (e : StateError)
      → (store s r).0 ≡ err e
      → (store s r).1 ≡ s
  unfolding store
  stored_error s (ok ms) e h = cc
  stored_error s (err x) e h = refl

  -- When loading a directory fails, the state is what it was: none of its files is loaded.
  load_dir_atomic :
      (files : List (Option Text)) (s : SemanticState G) (e : StateError)
      → (load_dir parse files s).0 ≡ err e
      → (load_dir parse files s).1 ≡ s
  unfolding load_dir
  load_dir_atomic files s e h = stored_error s (traverse (read_file parse) files) e h

  each_loaded :
      (yamls : List Text) (ms : List SemanticModel) (s : SemanticState G)
      → traverse (read_file parse) (map some yamls) ≡ ok ms
      → foldl insert_model (clone s) ms ≡ load_each yamls (clone s)
  unfolding traverse clone insert_model load_from_yaml store read_file
  each_loaded [] ms s h = ap (foldl insert_model (clone s)) (sym (ok-injective h))
  each_loaded (yaml ∷ yamls) ms s h =
      let (m, hm, h₁) = >>=-eq-ok (read_file parse (some yaml)) _ h in
      let (rest, hr, h₂) = >>=-eq-ok (traverse (read_file parse) (map some yamls)) _ h₁ in
      ap (foldl insert_model (clone s)) (sym (ok-injective h₂))
      ∙ (each_loaded yamls rest (insert_model (clone s) m) hr
          ∙ ap
              (λ (r : Result StateError SemanticModel).
                load_each yamls (store (clone s) (r >>= λ model. ok (model ∷ []))).1)
              (sym hm))

  stored_models :
      (s : SemanticState G) (r : Result StateError (List SemanticModel))
      → (store s r).0 ≡ ok tt
      → (ms : List SemanticModel) × (r ≡ ok ms) × ((store s r).1 ≡ foldl insert_model (clone s) ms)
  unfolding store
  stored_models s (ok ms) h = (ms, refl, refl)
  stored_models s (err e) h = cc

  -- When loading a directory succeeds, it leaves what loading the texts of its files one after the
  -- other leaves.
  pub load_dir_each :
      (yamls : List Text) (s : SemanticState G)
      → (load_dir parse (map some yamls) s).0 ≡ ok tt
      → (load_dir parse (map some yamls) s).1 ≡ load_each yamls (clone s)
  unfolding load_dir
  load_dir_each yamls s h =
      let (ms, e, done) = stored_models s (traverse (read_file parse) (map some yamls)) h in
      done ∙ each_loaded yamls ms s e
