-- ===== src/Network.antt =====
-- Hosts and a router together: the way of a content from the host that offers it to one that asks.
pub mod Exchange
pub mod Hops
pub mod Delivery
pub mod Chain
