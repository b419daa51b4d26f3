-- ===== src/Common.antt =====
-- utils/python/common
mod Tests
pub mod ListUtils
pub mod Filter
