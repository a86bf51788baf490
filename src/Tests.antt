-- ===== src/Tests.antt =====
-- The theorems at concrete inputs, and tests of the models.
pub mod Cursors
pub mod DeltaRound
mod Frames
mod Results
mod Sends
mod Messages
mod Sessions
mod Deliveries
mod Worker
mod Listing
