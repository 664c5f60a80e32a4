-- ===== src/Response.antt =====
-- core/src/conversion/response_converter.rs, except for the lists of models: the addresses of the
-- gateway, the body that is passed on, and the response that comes back.
pub mod Gateway
pub mod Proxy
pub mod Convert
mod Tests
