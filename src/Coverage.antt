-- ===== src/Coverage.antt =====
-- utils/python/coverage
mod Tests
pub mod Result
pub mod Stream
pub mod Summary
pub mod Resolve
pub mod Yields
pub mod Shrinks
pub mod Gcno
pub mod Gcda
pub mod Report
pub mod Sancov
