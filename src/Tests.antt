-- ===== src/Tests.antt =====
-- Concrete inputs, and each property at one of them.
mod Fixtures
mod Graphs
mod Lowering
mod Security
mod Quoting
mod Facts
mod Requests
mod Servers
mod Boot
mod Vaults
mod BigQuery
mod Snowflake
mod Wire
