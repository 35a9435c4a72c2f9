-- ===== src/Examples.antt =====
-- Runs of the model on small inputs, and the theorems at them.
mod Sample
mod Deciding
mod Claiming
mod Storing
mod Serving
mod Probing
mod Sharing
mod Hotport
mod Fetching
