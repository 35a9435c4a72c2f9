-- ===== src/Domain.antt =====
-- src/domain: the vocabulary of the service.
pub mod Failure
pub mod Lifecycle
pub mod Evidence
