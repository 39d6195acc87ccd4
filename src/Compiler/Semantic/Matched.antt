-- ===== src/Compiler/Semantic/Matched.antt =====
-- The model of a request that was validated.
use maysemantic.Prelude.{
  Text, true, [], ◌∷◌, ◌≡◌, sym, any, filter, values, length, leb, map, ok, err, arith, refl,
}
use maysemantic.Compiler.Lowering.{ModelMap}
use maysemantic.Compiler.Request.{SemanticRequest, has_metric, validate}
use maysemantic.Compiler.Semantic.{
  CompilerError, ambiguous_metric, matched_models, pick_model, find_model,
}

any-matched_models :
    (name : Text) (models : ModelMap)
    → any (has_metric name) (values models) ≡ leb 1 (length (matched_models name models))
unfolding matched_models filter any
any-matched_models name [] = refl
any-matched_models name ((n, m) ∷ ms) = ground (arith, any-matched_models name ms)

matched_of_validate :
    (models : ModelMap) (request : SemanticRequest)
    → validate models request ≡ ok tt
    → any (has_metric request.metric_name) (values models) ≡ true
unfolding validate
matched_of_validate models request h = ground arith

pick_model-err :
    (name : Text) (ms : ModelMap) (e : CompilerError)
    → leb 1 (length ms) ≡ true
    → pick_model name ms ≡ err e
    → (e ≡ ambiguous_metric name (map (λ m. m.0) ms)) × (leb 2 (length ms) ≡ true)
unfolding pick_model
pick_model-err name [] e n h = absurd (ground arith)
pick_model-err name (m ∷ []) e n h = cc
pick_model-err name (a ∷ b ∷ ms) e n h = (cc, ground arith)

-- Once a request is validated, the only way that finding its model fails is that several models
-- have the metric, and the error names all of these.
find_model_validated :
    (models : ModelMap) (request : SemanticRequest) (e : CompilerError)
    → validate models request ≡ ok tt
    → find_model models request.metric_name ≡ err e
    → (e
        ≡ ambiguous_metric request.metric_name
            (map (λ m. m.0) (matched_models request.metric_name models)))
      × (leb 2 (length (matched_models request.metric_name models)) ≡ true)
unfolding find_model
find_model_validated models request e v h =
    pick_model-err request.metric_name (matched_models request.metric_name models) e
      (rw (sym (any-matched_models request.metric_name models))
        (matched_of_validate models request v))
      h
