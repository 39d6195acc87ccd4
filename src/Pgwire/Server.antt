-- ===== src/Pgwire/Server.antt =====
-- `run_server`, may_pgwire/src/server.rs, up to the loop that accepts connections: the models, a connector
-- for each, the processor of the queries, and the repository that passwords are checked against.
use maysemantic.Prelude.{
  text_key, lookup-insert, arith, none, [], some, Bool, ◌≡◌, Option, Result, List, Text, str,
}
use maysemantic.Connectors.{ConnectorRegistry, WarehouseConnector, register, get_connector}
use maysemantic.Connectors.Postgres.{execute, Client, Config}
use maysemantic.Connectors.Snowflake.Token.{Secrets}
use maysemantic.Models.Core.{SemanticModel}
use maysemantic.Models.State.{SemanticState, load_dir, get_all_models}
use maysemantic.Auth.Store.{Users}
use maysemantic.Pgwire.{◌∷◌}
use maysemantic.Pgwire.Query.{QueryProcessor}

-- `PostgresConnector::new("mock_secret", secrets)`
unfoldable pub connector_of : (Config → Result Text Client) → Secrets → Bool → WarehouseConnector
unfolding str
connector_of connect secrets in_time = record {
  execute = execute connect secrets (str "mock_secret") in_time;
}

-- `for model in models`
unfoldable pub register_all :
    WarehouseConnector → List SemanticModel → ConnectorRegistry → ConnectorRegistry
register_all connector [] r = r
register_all connector (m ∷ ms) r = register_all connector ms (register r m.name connector)

-- `QueryProcessor::new`
unfoldable pub new : {G : Type 0} → SemanticState G → ConnectorRegistry → QueryProcessor G
unfolding str
new state connectors = record {
  state = state;
  connectors = connectors;
  dialect_kind = str "postgres";
}

-- The processor over the models of the directory; where they cannot be loaded there are none.
unfoldable pub processor_of :
    {G : Type 0}
    → (Text → Option SemanticModel)
    → List (Option Text)
    → WarehouseConnector
    → QueryProcessor G
processor_of parse files connector =
    let (loaded, state) = load_dir parse files (record { models = []; graph_cache = none }) in
    new state (register_all connector (get_all_models state) (record { connectors = [] }))

-- the identity database, or nobody
pub data Repository : Type 0 where
  identity_database : Users → Repository
  nobody : Repository

connect_or_deny : (Text → Option Users) → Option Text → Repository
connect_or_deny connect none = nobody
connect_or_deny connect (some url) = elim (connect url) [
  | none ↦ nobody
  | some users ↦ identity_database users
]

-- `database_url`, or else DATABASE_URL
unfoldable pub repository_of : (Text → Option Users) → Option Text → Option Text → Repository
unfolding connect_or_deny
repository_of connect database_url env =
    connect_or_deny connect (elim database_url [ none ↦ env | some url ↦ some url ])

pub get_connector-register_all :
    (connector : WarehouseConnector) (ms : List SemanticModel) (r : ConnectorRegistry) (name : Text)
    → get_connector r name ≡ some connector
    → get_connector (register_all connector ms r) name ≡ some connector
unfolding register_all get_connector register
get_connector-register_all connector [] r name h = h
get_connector-register_all connector (m ∷ ms) r name h =
    get_connector-register_all connector ms (register r m.name connector) name
      (ground (arith, lookup-insert name m.name connector r.connectors))
