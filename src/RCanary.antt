-- ===== src/RCanary.antt =====
-- The detector of leaks (rcanary): the order in which it analyses the blocks of a body.
pub mod Order
mod Tests
