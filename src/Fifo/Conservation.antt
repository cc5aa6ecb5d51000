-- ===== src/Fifo/Conservation.antt =====
-- No satoshi is lost or made: what the ledger brings in and takes out, against the open lots, the
-- matches and the oversold BTC of `fifo_result`.
mod Flow
mod Step
pub use Flow.*
pub use Step.*
