-- ===== src/Ledger/Order.antt =====
-- `_sorted_entries` of custom_components/bitcoin_stack_tracker/fifo.py: ledger rows by their UTC
-- instant, incoming before outgoing. Python's `sorted` is a stable sort.
mod Laws
unfoldable pub use Defs.*
pub use Laws.*
mod Defs
