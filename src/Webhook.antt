-- ===== src/Webhook.antt =====
-- The delivery of webhooks (server/webhook): the limits on a destination, the times of retries, the
-- attempts at a delivery and the cycles of the worker.
pub mod Limiter
pub mod Counted
pub mod InFlight
pub mod Retry
pub mod Backoff
pub mod Jitter
pub mod Types
pub mod Deliver
pub mod Cycle
pub mod Rounds
pub mod Paused
pub mod Delivered
