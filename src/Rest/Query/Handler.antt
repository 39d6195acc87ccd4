-- ===== src/Rest/Query/Handler.antt =====
-- The answers of `query_handler`, may_rest/src/routes/query.rs, by what the compiler gives.

-- how many models define the metric
use maysemantic.Rest.Query.Mapping.{try_from_iff, try_from_iff, mapped, IsQuery}
use maysemantic.Compiler.Semantic.{matched_models}
use maysemantic.Rest.Query.{
  from_compiler_error, try_from, from_mapping, from_auth, envelope, dialect_for, compile,
  QueryResponse, QueryRequest, run_query, query_handler,
}
use maysemantic.Rest.{from_request_parts, from_request, AppState}
use maysemantic.Auth.Token.{Claims, Jwt}
use maysemantic.Compiler.Lowering.{ModelMap}
use maysemantic.Ast.Combiners.{Floats}
use maysemantic.Graph.Engine.{DiGraph}
use maysemantic.Prelude.{
  ◌∙◌, ok-injective, subst, map_err-eq-ok, map_err, >>=-eq-ok, ◌≡◌, Option, length, ℕ, Text, ok,
  none, sym, ap,
}

abbrev pub definers : Text → ModelMap → ℕ
definers name models = length (matched_models name models)

module _ ⦃D : DiGraph⦄ ⦃F : Floats⦄ ⦃J : Jwt⦄ (state : AppState) (models : ModelMap) where
  -- An answer with a result is the envelope of the SQL that the compiler gives, with no user context and
  -- in the dialect of the state, for a payload of the contract, from a caller whose token verifies.
  pub query_handler_sound :
      (now : ℕ) (authorization : Option Text) (payload : QueryRequest) (resp : QueryResponse)
      → query_handler state models now authorization (ok payload) ≡ ok resp
      → (claims : Claims) × (name : Text) × (sql : Text) × (from_request_parts state now
            authorization
          ≡ ok claims)
        × IsQuery payload name
        × (compile models (dialect_for state.dialect_kind) (mapped payload name) none ≡ ok sql)
        × (resp ≡ envelope name sql)
  unfolding query_handler run_query from_request
  query_handler_sound now authorization payload resp h =
      let (claims, e, h₁) =
        >>=-eq-ok (map_err from_auth (from_request_parts state now authorization)) _ h in
      let (req, e₂, h₂) = >>=-eq-ok (map_err from_mapping (try_from payload)) _ h₁ in
      let (sql, e₃, h₃) =
        >>=-eq-ok
          (map_err from_compiler_error (compile models (dialect_for state.dialect_kind) req none)) _
          h₂ in
      let (name, q, same) =
        (try_from_iff payload req).0 (map_err-eq-ok from_mapping (try_from payload) e₂) in
      (
        claims,
        name,
        sql,
        map_err-eq-ok from_auth _ e,
        q,
        subst (λ r. compile models (dialect_for state.dialect_kind) r none ≡ ok sql) same
            (map_err-eq-ok from_compiler_error _ e₃),
        sym (ok-injective h₃) ∙ ap (λ r. envelope r.metric_name sql) same,
      )
