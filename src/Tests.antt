-- ===== src/Tests.antt =====
-- Tests on concrete data, and each theorem at an input that meets its hypotheses.
pub mod Swarms
pub mod Flights
pub mod Launches
pub mod Clients
pub mod Programs
pub mod Semaphores
pub mod Memory
pub mod Calls
