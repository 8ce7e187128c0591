-- ===== src/Lib.antt =====
-- A model of the core of ujin, the adaptive poller and scraper, and of the job service on it.
--
-- The program. A `PollEngine` (ujin/engine.py) holds targets: a pollable with an interval, a backoff, a
-- circuit breaker and its last result. It polls the targets that are due, tells by fingerprints
-- whether there was a change, and schedules the next poll from the controllers of ujin/adapt. In its
-- adaptive mode a limiter learns, from what a `SiteStore` has seen of a host, how fast to go there. The
-- job service (ujin/jobs) registers targets from job specs, and hands each change to a pipeline of
-- transforms and sinks. The scrape service (ujin/scrape/service.py) fetches an address in the way that
-- its host wants, extracts links, articles and the like, and keeps them in a cache. Caches, the
-- proxies, the robots rules and the diff of regions serve the fetchers. The orchestrator
-- (orchestrator/) drives the development of ujin itself: agents plan, build, test, review and merge.
--
-- Prelude: lists, stable sorting and Boolean tests over the native numbers, dictionaries in insertion
--   order, and `Result` for a call that may raise, with the exceptions by name.
-- Float: a float that is not NaN is its rank in the order of the floats. Its arithmetic is the
--   parameter `FloatOps`, with what IEEE 754 says of rounding in `FloatLaws`; Float/Fixed, decimals
--   with two places, satisfies the laws and runs.
-- Adapt: ujin/adapt. Interval (interval.py), Backoff and Breaker (backoff.py), Bucket and Aimd
--   (concurrency.py), Jitter (jitter.py), SiteStore (site_store.py), Signals (signals.py), Rate
--   (rate.py), Strategy (strategy.py).
-- Poll: ujin/poll/base.py, the results and `decide_changed`, and multi.py.
-- Engine: ujin/engine.py. `poll_once` is `skip`, and from the answer of the pollable on `finish`; a
--   round of `run` is Engine/Loop.
-- Jobs: ujin/jobs. Value and Dotted are events and paths in them, Transforms the built-in transforms
--   (transforms.py), Pipeline (pipeline.py; Pipeline/Runs has the rules of a run), Cron (cron.py),
--   Manager (manager.py), Webhook (the webhook of sinks.py), JobStore (store.py).
-- Cache: ujin/cache/store.py, hostpolicy.py and disk.py; DiskCache/Restart is how ujin/scrape/build.py
--   reads the disk cache and writes it. Diff: ujin/diff/detector.py. Proxy: ujin/proxy/pool.py.
-- Robots: ujin/robots.py.
-- Scrape: ujin/scrape/service.py. Model is the state and the data, Fetch `_fetch_html` and the feedback,
--   Links `_finalize_links` and the alternative paths, Extract the branches by mode and
--   `_result_from_cache`, Service `scrape`, Multi `scrape_multi`. It keeps its results in
--   Cache/Store, the cooldowns in Cache/HostPolicy and the feedback in Adapt/Strategy.
-- Orchestrator: orchestrator/. State is state.py and the limits of config.py, Gates gates.py, Focus the
--   steps of a focus in cycle.py, Merge merge.py, Store what a tick works on, Cycle `tick` and its
--   handlers.
-- Tests: runs on concrete inputs, and the theorems at inputs that meet their hypotheses.
--
-- State and time. A method takes the state of its object and gives back the new one; an object that
-- two parts of the program share is in both of their states. Each reading of the clock and each
-- random draw is an argument, in the order in which the code asks for them. Awaited calls of one
-- coroutine are steps in its order; what a method does under its lock, or without an await, is one
-- step.
--
-- Fuel. The slices of a list are cut on as many rounds as the list has items, and every slice takes at
-- least one. The turns of the proxies and the search of cron have the bounds that the code has:
-- the number of the proxies, and the minutes of four years of 366 days.
--
-- The tries of a delivery are those that the code makes, one more than its retries; a spool is replayed
-- file by file, and the work of a tick is the list of its foci.
--
-- Parameters. Python's comparisons of values, `str`, regular expressions, the calendar and the time
-- zone (`local` and `timestamp` of `Calendar`) are arguments of the definitions that use them. So are
-- the answers of what is outside: `Answers` and `Site` (the fetchers, the extractors, the patterns, the
-- scorer and the fingerprints of the scrape service; the fields of `Site` that end in `_raises` say
-- where these raise), `Outside` and `World` (the agents, git, make and the date of the orchestrator;
-- what raises in the code is a `Result`, the gates and git included), the answers of the receiver of a
-- webhook and of the pollables, the codecs of what is stored (`Codec`, `Pickle`), and the rows of a
-- query of the disk cache, which come in any order.
--
-- Not modelled: the network, browsers, HTML, SQL and files; HTTP routes and the command line; the
-- transforms select, sort, aggregate, regex and template; the interleaving of several polls at
-- once; the combined mode and the batches of the scrape service; the sinks but the webhook; the
-- lists of specs, runs and events that the job store reads; `next_cycle` and the
-- version of a release; logging.
pub mod Prelude
pub mod Float
pub mod Adapt
pub mod Poll
pub mod Engine
pub mod Jobs
pub mod Diff
pub mod Cache
pub mod Robots
pub mod Proxy
pub mod Scrape
pub mod Orchestrator
mod Tests
