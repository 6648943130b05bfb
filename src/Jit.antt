-- ===== src/Jit.antt =====
-- include/unijit/jit and src/jit: published code and the tiers that it moves between.
pub mod Handle
pub mod Hotness
pub mod Tiering
pub mod Target
pub mod CodeCache
pub mod Scheduler
