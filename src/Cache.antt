-- ===== src/Cache.antt =====
-- ujin/cache: store.py, hostpolicy.py and disk.py. Each method holds the lock while it runs, so a call
-- is one step.
pub mod Store
pub mod HostPolicy
pub mod DiskCache
