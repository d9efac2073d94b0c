-- ===== src/Database/Bundle/Starts.antt =====
-- When crates/api/src/repo_factory.rs starts.
use kokkeak_api.Database.Topology.Opens.{Opens}
use kokkeak_api.Database.Topology.Owns.{Owns}
