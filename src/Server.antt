-- ===== src/Server.antt =====
-- proxy/src/server: what the proxy does with a request of the desktop.
pub mod Tokens
pub mod Answer
pub mod Probe
pub mod Summary
pub mod Outside
pub mod Retry
pub mod Dispatch
pub mod Handler
mod Tests
