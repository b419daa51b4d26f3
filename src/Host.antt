-- ===== src/Host.antt =====
-- The host side of a test run: runners/host.
mod Tests
pub mod Records
pub mod Requests
pub mod ExecOneTest
pub mod FilterOneTest
