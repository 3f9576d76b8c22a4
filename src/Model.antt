-- ===== src/Model.antt =====
-- The rows of the store (internal/store/models.go) and the database that its methods act on.
pub mod Org
pub mod Drop
pub mod Db
pub mod Fleet
