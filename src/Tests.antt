-- ===== src/Tests.antt =====
-- Inputs and runs of the theorems.
pub mod Data
pub mod Server
pub mod Http
pub mod Memory
pub mod Heap
pub mod Echo
pub mod Reading
pub mod Delivery
pub mod Clients
pub mod Start
pub mod Driver
pub mod RoundTrip
