-- ===== src/Tests.antt =====
-- Runs of the modelled code on concrete inputs.
mod Atomics
mod Fields
mod Words
mod Folding
mod Accesses
mod Assumptions
mod Frames
mod Tiers
mod Caches
mod Objects
mod Schedules
