-- ===== src/Ambitious.antt =====
-- The router of Ambitious Version: tables whose records are marked invalid and used again.
pub mod Pending
pub mod PendingLaws
pub mod Store
pub mod Unique
pub mod Timers
pub mod Routing
pub mod RoutingLaws
pub mod Main
pub mod Answers
pub mod Spreading
pub mod Inside
pub mod Survival
pub mod Loop
pub mod Serving
pub mod Hosts
pub mod Misaddressed
pub mod Memory
pub mod Dangling
pub mod Placement
pub mod Addresses
pub mod Setup
