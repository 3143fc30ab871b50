-- ===== src/Sender.antt =====
-- The first host program, Ambitious Version/sender.cpp.
pub mod Threads
pub mod Announcing
pub mod Misfiled
