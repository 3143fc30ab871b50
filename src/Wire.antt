-- ===== src/Wire.antt =====
-- Packets and their bytes: `common.h`, `common.cpp` and `CommonProject.cpp` of Simplified Version/Code.
pub mod Bits
pub mod Header
pub mod Integers
pub mod Address
pub mod Packet
pub mod Make
pub mod Received
pub mod RoundTrip
