-- ===== src/Tests.antt =====
-- Concrete inputs, runs of the definitions on them, and the theorems at them.
mod Data
mod Wire
mod Sessions
mod Managers
mod Macs
mod Clients
mod Starts
mod Systems
mod Mains
mod Servers
mod Pauses
mod Measures
