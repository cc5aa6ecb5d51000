-- ===== src/WalletWatch.antt =====
-- custom_components/bitcoin_stack_tracker/wallet_watch.py: addresses and transactions.
pub mod Digits
pub mod Base58
pub mod Transaction
mod Tests
pub mod Address
