-- ===== src/Storage.antt =====
-- src/storage.rs: the storage traits as interfaces, and `MemoryStorage`, which implements them.
-- Instants and durations are nanoseconds. A `DashMap` is an association list, and each call
-- is a function of the state, for a caller that no other interrupts.
pub mod Interface
pub mod Memory
pub mod Quotas
pub mod Bans
mod Tests
