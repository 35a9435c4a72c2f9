-- ===== src/Xray.antt =====
-- src/src/xray: the long-lived Xray processes.
pub mod Runtime
pub mod Ports
pub mod Vip
pub mod Shutdown
