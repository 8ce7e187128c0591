-- ===== src/Jobs.antt =====
-- ujin/jobs: events, the transforms that reshape them, and the pipeline that runs them.
pub mod Value
pub mod Dotted
pub mod Transforms
pub mod Pipeline
pub mod Cron
pub mod Webhook
pub mod JobStore
pub mod Manager
