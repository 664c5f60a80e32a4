-- ===== src/ModelList.antt =====
-- core/src/conversion/response_converter.rs: the list of models that the desktop is shown, from
-- the list that the upstream gives.
pub mod Provider
pub mod Order
pub mod Calendar
pub mod Normalize
pub mod Visibility
mod Tests
