-- ===== src/Mop.antt =====
-- The alias analysis of core/alias/mop: what of the aliases at the end of a path goes into the summary of
-- the function (core/alias/mop/alias.rs). Its union-find is, line by line, that of safedrop/alias.rs.
pub mod Results
mod Tests
