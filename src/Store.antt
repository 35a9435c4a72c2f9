-- ===== src/Store.antt =====
-- src/src/storage/mod.rs: the tables, and the statements against them.
-- A table is a list of rows, a text column that holds the name of a state or a class is a value of
-- that type, and an RFC 3339 instant is a number: the texts compare as the instants do.
pub mod Schema
pub mod Invariant
pub mod Events
pub mod Upkeep
pub mod Upstream
pub mod Reach
pub mod Clients
pub mod Sources
