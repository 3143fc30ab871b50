-- ===== src/Ports.antt =====
-- The addresses and sockets of the ports in Simplified Version/Code/common.h and common.cpp.
pub mod Addresses
pub mod Sockets
pub mod Opening
pub mod Configured
pub mod Receiving
