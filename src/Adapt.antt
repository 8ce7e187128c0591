-- ===== src/Adapt.antt =====
-- ujin/adapt: the controllers that pace polling.
pub mod Interval
pub mod Backoff
pub mod Breaker
pub mod Bucket
pub mod Aimd
pub mod Jitter
pub mod SiteStore
pub mod Signals
pub mod Strategy
pub mod Rate
