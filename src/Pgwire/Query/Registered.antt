-- ===== src/Pgwire/Query/Registered.antt =====
-- The queries of the server that may_pgwire/src/server.rs starts: a model that is loaded has a connector.
use maysemantic.Connectors.{ConnectorRegistry, WarehouseConnector, register, get_connector}
use maysemantic.Models.Core.{SemanticModel}
use maysemantic.Models.State.{get_all_models, get_default_model, head?}
use maysemantic.Pgwire.Query.{
  Encoder, Failure, QueryProcessor, Response, run_sql, is_setup, is_version_query, is_select_1,
  on_default, run_on, internal_error, answer_rows,
}
use maysemantic.Pgwire.Server.{processor_of, register_all, get_connector-register_all, new}
use maysemantic.Prelude.{
  text_key, map, to_ascii_upper, false, map_err, Text, ℕ, Option, some, [], ◌∷◌, ◌≡◌, ◌⊎◌, ◌>>=◌,
  refl, List, Result, eq_iff, arith, inl, inr, lookup-insert, str,
}

-- SQL that is sent to a warehouse: no command or query that the server answers itself
abbrev pub IsForwarded : Text → Type 0
IsForwarded sql =
    let upper = map to_ascii_upper sql in
    (is_setup upper ≡ false) × (is_version_query upper ≡ false) × (is_select_1 upper ≡ false)

module _ ⦃E : Encoder⦄ (show_f64 : ℕ → Text) (connector : WarehouseConnector) where
  -- what the client sees of the connector's answer
  unfoldable pub answer_of : Text → Result Failure Response
  unfolding internal_error str
  answer_of sql =
      map_err (λ _. internal_error "Connector error: " []) (connector.execute sql)
      >>= answer_rows show_f64

  get_connector-register :
      (r : ConnectorRegistry) (m : SemanticModel)
      → get_connector (register r m.name connector) m.name ≡ some connector
  unfolding get_connector register
  get_connector-register r m =
      ground (arith, lookup-insert m.name m.name connector r.connectors, eq_iff m.name m.name)

  on_default-registered :
      (ms : List SemanticModel) (r : ConnectorRegistry) (sql : Text)
      → (ms ≡ [])
        ⊎ (on_default show_f64 (register_all connector ms r) (head? ms) sql ≡ answer_of sql)
  unfolding on_default run_on register_all answer_of
  on_default-registered [] r sql = inl refl
  on_default-registered (m ∷ ms) r sql = inr (
      rw
        (get_connector-register_all connector ms (register r m.name connector) m.name
          (get_connector-register r m))
        refl)

  forwarded :
      {G : Type 0} (q : QueryProcessor G) (sql : Text)
      → IsForwarded sql
      → run_sql show_f64 q sql ≡ on_default show_f64 q.connectors (get_default_model q.state) sql
  unfolding run_sql
  forwarded q sql h = rw (h.0, h.1, h.2) refl

  -- Once the server has started, SQL that it does not answer itself is answered by the connector, unless
  -- no model is loaded: a connector is never missing for the model that is picked.
  pub run_sql-answer_of :
      (G : Type 0) (parse : Text → Option SemanticModel) (files : List (Option Text)) (sql : Text)
      → IsForwarded sql
      → (get_all_models (processor_of {G = G} parse files connector).state ≡ [])
        ⊎ (run_sql show_f64 (processor_of {G = G} parse files connector) sql ≡ answer_of sql)
  unfolding processor_of get_default_model get_all_models new
  run_sql-answer_of G parse files sql h =
      rw (forwarded (processor_of {G = G} parse files connector) sql h)
        (on_default-registered _ (record { connectors = [] }) sql)
