-- ===== src/Robots.antt =====
-- ujin/robots.py: the rules of a robots.txt file and the cache of them.
pub mod Policy
pub mod Cached
