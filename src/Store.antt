-- ===== src/Store.antt =====
-- custom_components/bitcoin_stack_tracker/storage.py: the ledger store.
pub mod Data
pub mod Rows
pub mod Cache
pub mod Save
pub mod Changes
pub mod Oversell
pub mod Guard
pub mod Import
pub mod Depots
pub mod Limits
mod Tests
