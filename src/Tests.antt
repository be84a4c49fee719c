-- ===== src/Tests.antt =====
-- Tests on small worlds, and the theorems of the development at inputs that meet their hypotheses.
mod Worlds
mod Scheduling
mod Queues
mod Tasks
mod Calls
mod Channels
mod Macos
mod Systems
mod Rings
mod Mutexes
mod Storage
mod Windows
