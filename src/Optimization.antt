-- ===== src/Optimization.antt =====
-- core/src/optimization: the requests that are answered without the upstream.
pub mod Commands
pub mod WebTools
pub mod Detection
pub mod Answers
