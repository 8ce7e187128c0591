-- ===== src/Tests.antt =====
-- Runs of the model on concrete inputs, and each theorem at an input that meets its hypotheses.
mod Adapt
mod Learned
mod Engine
mod Jobs
mod Net
mod Scrape
mod JobStore
mod DiskCache
mod Webhook
mod Orchestrator
