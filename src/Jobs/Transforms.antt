-- ===== src/Jobs/Transforms.antt =====
-- ujin/jobs/transforms.py: the transforms, as functions on an event's fields. An event is a value, so
-- that `copy.deepcopy` and `copy.copy` are the identity. `apply` of each returns the events that go on.
pub mod Chunk
pub mod Flatten
pub mod Limit
pub mod Unique
pub mod Dedupe
pub mod Items
