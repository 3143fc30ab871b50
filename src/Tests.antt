-- ===== src/Tests.antt =====
-- Concrete inputs on which the code's definitions run and the theorems apply.
mod Values
mod Routers
mod Passes
mod Wires
mod Tables
mod Hosts
mod Deliveries
mod Locks
mod Loops
mod EarlierRouters
mod Senders
mod Sockets
mod Addresses
