-- ===== src/Locking.antt =====
-- Ambitious Version/Router1.h: the tables of Router.h with a mutex in each record.
pub mod Pending
pub mod Routing
pub mod Alike
pub mod Lifetimes
pub mod Histories
pub mod Orders
