-- ===== src/App.antt =====
-- src/src/app.rs: the background loops that govern the others.
pub mod Guard
pub mod Concurrency
pub mod Sampler
pub mod Restart
