-- ===== src/Database.antt =====
-- The databases: crates/infra/src/db/topology.rs, crates/infra/src/db/mssql.rs,
-- crates/api/src/repo_factory.rs and crates/infra/src/db/migrate.rs.
pub mod Connect
pub mod Topology
pub mod Bundle
pub mod Migrations
