-- ===== src/Fifo.antt =====
-- custom_components/bitcoin_stack_tracker/fifo.py: open lots, matches and gains by FIFO.
pub mod Types
pub mod Holding
mod Expand
pub mod Drain
pub mod Books
mod Sale
mod Expense
pub mod Rows
pub mod Result
pub mod Balance
pub mod Conservation
pub mod Cursor
pub mod Depots
pub mod Gains
pub mod Average
mod Tests
unfoldable pub use Types.*
unfoldable pub use Holding.*
unfoldable pub use Expand.*
unfoldable pub use Books.*
unfoldable pub use Sale.*
unfoldable pub use Expense.*
unfoldable pub use Rows.*
unfoldable pub use Result.*
