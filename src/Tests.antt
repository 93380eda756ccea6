-- ===== src/Tests.antt =====
-- Concrete values, and the theorems at them.
mod Values
mod Frames
mod Stores
mod Rooms
mod Clients
mod Writes
mod Durability
mod Arrivals
mod Lifecycle
mod Members
mod Remote
mod Starting
mod Deliveries
mod Connections
mod Restart
mod Settings
