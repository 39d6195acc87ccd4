-- ===== src/Compiler/Lowering/Seen.antt =====
-- Which entities the lowering pass knows, against the enumeration of the models.
use mathlib.Core.List.{foldl}
use maysemantic.Prelude.{
  Bool, true, false, ◌||◌, ◌&&◌, contains, contains-insert_set, eq_iff, Option, some, none,
  insert_set, Text, List, [], ◌∷◌, ◌≡◌, ◌==◌, lookup, lookup-upsert, get_or, text_key, pair_key,
  arith,
}
use maysemantic.Models.Core.{Entity}
use maysemantic.Compiler.Lowering.{entity_seen, ModelMap, new}
use maysemantic.Compiler.Lowering.Index.{see_entity, see_model, entity_models-new}

-- Whether some model, or the model that is named, declares the entity.
abbrev is_model : Option Text → Text → Bool
is_model none m = true
is_model (some filter_m) m = m == filter_m

abbrev has_entity : Text → List Entity → Bool
has_entity entity [] = false
has_entity entity (e ∷ es) = e.name == entity || has_entity entity es

abbrev pub declares_entity : Option Text → Text → ModelMap → Bool
declares_entity model entity [] = false
declares_entity model entity ((m, decl) ∷ ms) =
    is_model model m && has_entity entity decl.entities || declares_entity model entity ms

abbrev seen_in : Option Text → Text → List (Text × List Text) → Bool
seen_in none entity seen = elim (lookup entity seen) [ none ↦ false | some _ ↦ true ]
seen_in (some m_name) entity seen = elim (lookup entity seen) [
  | none ↦ false
  | some models ↦ contains models m_name
]

seen-see_entity :
    (model : Option Text) (entity m : Text) (seen : List (Text × List Text)) (e : Entity)
    → seen_in model entity (see_entity m seen e)
      ≡ (seen_in model entity seen || is_model model m && e.name == entity)
unfolding see_entity contains
seen-see_entity none entity m seen e =
    ground (arith, lookup-upsert entity e.name [] (insert_set m) seen, eq_iff e.name entity)
seen-see_entity (some f) entity m seen e = ground (
  arith,
  lookup-upsert entity e.name [] (insert_set m) seen,
  eq_iff e.name entity,
  contains-insert_set m f (get_or [] (lookup entity seen)),
)

seen-entities :
    (model : Option Text) (entity m : Text) (seen : List (Text × List Text)) (es : List Entity)
    → seen_in model entity (foldl (see_entity m) seen es)
      ≡ (seen_in model entity seen || is_model model m && has_entity entity es)
seen-entities model entity m seen [] = ground arith
seen-entities model entity m seen (e ∷ es) = ground (
  arith,
  seen-entities model entity m (see_entity m seen e) es,
  seen-see_entity model entity m seen e,
)

seen-models :
    (model : Option Text) (entity : Text) (seen : List (Text × List Text)) (ms : ModelMap)
    → seen_in model entity (foldl see_model seen ms)
      ≡ (seen_in model entity seen || declares_entity model entity ms)
unfolding see_model
seen-models model entity seen [] = ground arith
seen-models model entity seen ((m, decl) ∷ ms) = ground (
  arith,
  seen-models model entity (see_model seen (m, decl)) ms,
  seen-entities model entity m seen decl.entities,
)

-- `entity_seen` finds the entities that the models declare.
pub entity_seen-new :
    (model : Option Text) (entity : Text) (ms : ModelMap)
    → entity_seen (new ms) model entity ≡ declares_entity model entity ms
unfolding entity_seen lookup
entity_seen-new none entity ms = rw (entity_models-new ms) (seen-models none entity [] ms)
entity_seen-new (some m) entity ms = rw (entity_models-new ms) (seen-models (some m) entity [] ms)
