-- ===== src/Ir.antt =====
-- The intermediate representation: include/unijit/ir and src/ir.
pub mod Opcode
pub mod Float
pub mod Evaluate
pub mod Optimizer
