-- ===== src/Curd.antt =====
-- Installing, uninstalling and upgrading a plugin: internal/types/models/curd/atomic.go, with the
-- tables of internal/types/models and the accesses of internal/db/executor.go.
pub mod Database
pub mod Access
pub mod Install
pub mod Uninstall
pub mod Upgrade
pub mod Upload
pub mod Rows
pub mod References
pub mod Quiet
pub mod Atomic
mod Tests
