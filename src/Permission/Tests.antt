-- ===== src/Permission/Tests.antt =====
-- Tests of the permission codes of crates/domain/src/user.rs.
