-- ===== src/Optimization/WebTools.antt =====
-- core/src/optimization/web_tools.rs: what a fetch of the web may reach, and the fetch itself.
pub mod Address
pub mod Policy
pub mod Fetch
pub mod Calls
pub mod Sample
mod Tests
