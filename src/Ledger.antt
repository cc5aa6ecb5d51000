-- ===== src/Ledger.antt =====
-- The rows of the ledger, and what the calculations take from Python's standard library:
-- custom_components/bitcoin_stack_tracker/models.py and the readers of fifo.py.
-- BTC amounts are whole satoshis, the grid that `btc_string` writes. Fiat values are the abstract
-- decimals `D`, with the operations of `decimal.Decimal` as a parameter.
mod Defs
pub mod Order
pub mod Slug
unfoldable pub use Defs.*
