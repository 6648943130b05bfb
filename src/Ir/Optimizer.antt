-- ===== src/Ir/Optimizer.antt =====
-- src/ir/optimizer.cpp.
pub mod Fold
pub mod Decide
pub mod Replace
pub mod Sound
