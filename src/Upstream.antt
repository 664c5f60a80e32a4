-- ===== src/Upstream.antt =====
-- The requests to the gateway and what comes back from it: proxy/src/server/upstream.rs, and the
-- credentials of core/src/lib.rs.
pub mod Headers
pub mod Errors
mod Tests
