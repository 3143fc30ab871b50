-- ===== src/Earlier.antt =====
-- Ambitious Version/simple_router.cpp: an earlier router, whose receiving threads handle packets.
pub mod Tables
pub mod State
pub mod Handlers
pub mod Steps
pub mod Sends
pub mod Decisions
pub mod Acts
pub mod Safety
pub mod FirstRoute
pub mod Overrun
pub mod Passes
