-- ===== src/Fetch.antt =====
-- src/engine.rs: fetching a claim. The transforms of the bytes, the URL and the range that a request
-- asks for, and the loop over the received bytes.
pub mod Pipeline
pub mod Target
pub mod Stream
pub mod Tests
