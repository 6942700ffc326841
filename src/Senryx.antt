-- ===== src/Senryx.antt =====
-- The contract checker of unsafe API calls (rapx/src/analysis/senryx).
pub mod Allocated
pub mod Init
pub mod Align
pub mod State
pub mod Contract
pub mod Checker
mod Tests
