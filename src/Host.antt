-- ===== src/Host.antt =====
-- The host of Simplified Version/Code/host.cpp.
pub mod State
pub mod Threads
pub mod Contents
pub mod Announcing
pub mod Answering
pub mod Quiet
pub mod Retrying
