-- ===== src/Lib.antt =====
-- maysemantic: a semantic layer that turns requests for metrics into SQL, and the servers,
-- clients and stores around it.
--
-- A request names a metric of a model. The request is validated against the models that are
-- loaded (Models.State, Models.Core, Compiler.Request), the metric is resolved to an entity, a
-- measure and dimensions (Compiler.MetricResolver), and the hops that join their entities are
-- searched in the graph of all joins (Graph.Engine, Graph.Resolver). The compiler builds a query
-- over references to dimensions and measures (Compiler.Semantic, Ast.Builder), aggregates the
-- facts first where the path has several (Compiler.Fanout, Compiler.ChasmTrap), lowers the
-- references to columns (Compiler.Lowering), adds the predicates of row-level security
-- (Compiler.Rls), and a dialect writes the text (Dialects.Quote, Dialects.Writer).
--
-- Requests come in over HTTP (Rest) or over the protocol of Postgres (Pgwire). Both know the
-- users of the table of accounts (Auth): the first gives out tokens and reads them, the second
-- asks for the password. The second also runs the SQL at a warehouse (Connectors), whose
-- credentials come from the environment or from Vault (Secrets). The command line (Cli) checks
-- models before they are deployed.
--
-- Files and sources, from may_core/src:
-- - Ast/Node: ast/node.rs, every constructor of Expr and SqlNode. A Vec or an Option of nodes
--   inside the tree is a type of the same mutual block (Exprs, Nodes, OptNode, OptNodes).
-- - Ast/Combiners: ast/combiners.rs (and, or, eq are and_expr, or_expr, eq_expr). Ast/Builder:
--   ast/builder.rs.
-- - Models/Core: models/core.rs, with RlsPolicy of compiler/rls.rs. Models/State:
--   models/state.rs; an operation is a step of SemanticState, and Reachable is the relation of
--   the states that the steps lead to.
-- - Graph/Engine: graph/engine.rs. Graph/Resolver: graph/resolver.rs, with ResolvedJoin of
--   compiler/join_builder.rs; the part that find_join_path and find_join_path_resolved have in
--   common is node_path.
-- - Compiler/Request: compiler/request.rs and request_parser.rs. Compiler/MetricResolver:
--   compiler/metric_resolver.rs. Compiler/Fanout: compiler/fanout.rs. Compiler/ChasmTrap and
--   Compiler/ChasmTrap/Rewrite: compiler/chasm_trap.rs. Compiler/Lowering: compiler/lowering.rs.
--   Compiler/Rls: compiler/rls.rs.
-- - Compiler/Semantic and the files Joins, Clauses, PreAgg and Compile below it:
--   compiler/semantic_compiler.rs, the steps of SemanticCompiler::compile in order.
-- - Dialects/Quote and Dialects/Writer: dialects/core.rs with the overrides of postgres.rs,
--   snowflake.rs, bigquery.rs and dummy.rs, and dialect_for of dialects/mod.rs. A dialect is a
--   case of Dialect.
--
-- Files and sources of the other crates:
-- - Auth: may_auth/src/error.rs, models.rs and the trait of repository.rs, which is the record
--   UserRepository. Auth/Store: PgUserRepository and seed.rs, as steps of a list of rows.
--   Auth/Password: password.rs. Auth/Token: token.rs.
-- - Rest: may_rest/src/error.rs, lib.rs and middleware. Rest/Login: routes/auth.rs. Rest/Users:
--   routes/users.rs. Rest/Query: routes/query.rs. Rest/Server: main.rs up to the socket. A
--   handler takes what its extractors give, and the users before and after.
-- - Secrets: may_secrets/src/error.rs and models. Secrets/Env: providers/env.rs. Secrets/Vault:
--   providers/vault.rs, a state with the cache and the token. Secrets/Config: config.rs,
--   bootstrap.rs and the builder of vault.rs.
-- - Connectors: may_connectors/src/error.rs, models.rs, traits.rs and registry.rs.
--   Connectors/Snowflake with Token, Poll and Execute, Connectors/BigQuery with Token and Pages,
--   and Connectors/Postgres: dwh/snowflake.rs, dwh/bigquery.rs and dwh/postgres.rs. A stream is
--   the list of what it yields.
-- - Pgwire/Startup and Pgwire/Query: may_pgwire/src/handler.rs, PgWireAuthenticator and
--   QueryProcessor. Pgwire/Server: run_server of server.rs up to its loop. Pgwire: what these
--   use.
-- - Cli: the commands of may_cli/src/main.rs.
-- - Json: the JSON values that connectors and secrets read. Prelude and the files below it:
--   Rust's Result, the texts and their functions, decimals, maps and sets. Quoted: the reader of
--   quoted tokens that the quoting is proved against. Tests: a small shop, a graph, and every
--   result below at one input.
--
-- How the code is read: a String is the list of its code points (Text). A Result is Result, and
-- `?` is its bind. Where a message ends in the text of another error, the model's ends before
-- it. A HashMap is an association list in its order of iteration, whatever that order is; a
-- HashSet is a list. usize and u64 are natural numbers where they only count, and an i64 or a
-- u16 that is parsed keeps its bounds; the u32 offset of Auth/Store wraps around as a release
-- build does. Time is a number of seconds that a call is given. A call that holds a lock is one
-- step.
--
-- Fuel: the polls of Snowflake run on eleven rounds, and the source allows ten polls, so the
-- loop ends before the fuel does, as poll_loop-IsDone says. The pages of BigQuery, which have no
-- bound in the source, run on as many rounds as are given, and Delivers counts those that a run
-- of the server needs. All other recursion is structural.
--
-- Parameters: petgraph is the record DiGraph (Graph/Engine), with astar, and FindsWalk
-- (Graph/Resolver/Leads) says of a search that it walks along edges; f64 is the record Floats
-- (Ast/Combiners), whose one law says that a finite value prints with digits, minus and dot; the
-- YAML parser is an argument of the operations that use it. bcrypt is Bcrypt and jsonwebtoken is
-- Jwt, with the laws that a hash verifies and that a signed token is read back. Vault and the
-- warehouses are the records Vault and Server, one function for each request; RSA keys are Rsa,
-- gcp_auth is Gcp, DataRowEncoder of pgwire is Encoder (Pgwire/Query), whose law is that a value
-- without a column is a panic, base64 and the reading of numbers are Formats and Readers; the
-- client of Postgres is the data that it decodes.
--
-- Not modelled: logging, buffer capacities, Serde defaults and the JSON schema, locks and their
-- poisoning, the debug assertions of build_from_join_path and of RlsInjector::inject, the loops
-- that accept connections, routing, OpenAPI and the health route, TLS and sockets, and what the
-- command line prints.
pub mod Prelude
pub mod Quoted
pub mod Ast
pub mod Models
pub mod Graph
pub mod Compiler
pub mod Dialects
pub mod Json
pub mod Auth
pub mod Secrets
pub mod Connectors
pub mod Rest
pub mod Pgwire
pub mod Cli
pub mod Tests
