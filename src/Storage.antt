-- ===== src/Storage.antt =====
-- src/storage: the stores of the service.
pub mod InMemory
pub mod Sql
pub mod Postgres
pub mod Mongo
