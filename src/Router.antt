-- ===== src/Router.antt =====
-- The router of Simplified Version/Code/router.cpp.
pub mod Tables
pub mod Expiry
pub mod State
pub mod Handlers
pub mod Loop
pub mod Keys
pub mod Steps
pub mod Effects
pub mod Ranges
pub mod Draining
pub mod Decisions
pub mod Invariant
pub mod Commits
pub mod Survival
pub mod Safety
pub mod Rounds
pub mod Broadcast
pub mod Learning
pub mod Announcements
pub mod BestRoute
pub mod Requests
pub mod Returns
pub mod StaleCache
pub mod HopLimit
pub mod SharedMessage
pub mod Configuration
