-- ===== src/Request.antt =====
-- core/src/conversion/request_converter.rs: an Anthropic request becomes an OpenAI one.
pub mod Effort
pub mod Routes
pub mod Images
pub mod Blocks
pub mod Messages
pub mod Tools
pub mod Convert
mod Tests
