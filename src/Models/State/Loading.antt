-- ===== src/Models/State/Loading.antt =====
-- Whether a load succeeds depends on the text alone: may_core/src/models/state.rs.

use maysemantic.Models.State.{
  read_model, SemanticState, StateError, SemanticModel, store, load_from_yaml,
}
use maysemantic.Prelude.{◌≡◌, is_ok, Result, Option, Text, refl, ok, err, ◌>>=◌, [], ◌∷◌}

is_ok-store :
    {G : Type 0} (r : Result StateError SemanticModel) (s : SemanticState G)
    → is_ok (store s (r >>= λ m. ok (m ∷ []))).0 ≡ is_ok r
unfolding store
is_ok-store (ok m) s = refl
is_ok-store (err e) s = refl

pub is_ok-load_from_yaml :
    {G : Type 0} (parse : Text → Option SemanticModel) (yaml : Text) (s : SemanticState G)
    → is_ok (load_from_yaml parse yaml s).0 ≡ is_ok (read_model parse yaml)
unfolding load_from_yaml
is_ok-load_from_yaml parse yaml s = is_ok-store (read_model parse yaml) s
