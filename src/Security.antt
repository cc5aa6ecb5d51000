-- ===== src/Security.antt =====
-- custom_components/bitcoin_stack_tracker/security.py: who may open the vault, and for how long.
pub mod State
pub mod Sessions
pub mod Policy
pub mod Calls
pub mod History
pub mod Access
pub mod Exposure
pub mod AutoLock
pub mod Locked
mod Tests
