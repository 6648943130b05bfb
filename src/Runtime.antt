-- ===== src/Runtime.antt =====
-- include/unijit/runtime and src/runtime: what compiled code and its host share.
pub mod Context
pub mod Assumption
pub mod Deoptimization
pub mod Osr
pub mod Materialization
