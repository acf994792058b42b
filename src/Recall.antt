-- ===== src/Recall.antt =====
-- internal/memory: recall of facts. Modelled here: the lifecycle policy of recall, the expiry of a
-- fact, and the cache of recall results.
pub mod Options
pub mod Expiry
pub mod Present
pub mod Cache
pub mod Related
pub mod Counter
