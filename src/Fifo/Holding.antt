-- ===== src/Fifo/Holding.antt =====
-- `_holding_details`: how long a lot has been held at a moment, against the threshold in days.
pub mod Laws
use Prim.Native.Nat.{max}
use bitcoin_stack_tracker.Common.{
  ℕ, ◌+◌, ◌-◌, ◌*◌, ◌/◌, false, Option, none, some, ltb, leb, if◌then◌else◌,
}
use bitcoin_stack_tracker.Common.Int.{ℤ, pos_part}
use bitcoin_stack_tracker.Ledger.{TimeValue, Instant, Python, parse_timestamp, day}
use bitcoin_stack_tracker.Fifo.Types.{Holding, unknown, long_term, short_term}

-- `max(1, int(long_term_days))`
unfoldable pub threshold_days : ℤ → ℕ
threshold_days long_term_days = max 1 (pos_part long_term_days)

abbrev pub unknown_holding : Holding
unknown_holding = record {
  holding_days = none;
  holding_status = unknown;
  long_term_date = none;
  days_until_long_term = none;
  tax_cutoff_blocked = false;
  tax_cutoff_date = "";
}

-- 86399 seconds, in microseconds.
abbrev almost_day : ℕ
almost_day = 86_399_000_000

-- The branch where both moments are known and in order. The source's seconds are these microseconds
-- over 10^6, and `max(0, …)` of a negative quotient is the truncated subtraction.
unfoldable pub holding_between : Instant → Instant → ℤ → Holding
unfolding threshold_days
holding_between acquired reference long_term_days =
    let long_term_at = acquired + threshold_days long_term_days * day in
    record {
      holding_days = some ((reference - acquired) / day);
      holding_status = if leb long_term_at reference then long_term else short_term;
      long_term_date = some long_term_at;
      days_until_long_term = some ((long_term_at + almost_day - reference) / day);
      tax_cutoff_blocked = false;
      tax_cutoff_date = "";
    }

unfoldable pub holding_of : Option Instant → Option Instant → ℤ → Holding
unfolding holding_between
holding_of (some acquired) (some reference) long_term_days =
    if ltb reference acquired
    then unknown_holding
    else holding_between acquired reference long_term_days
holding_of _ _ long_term_days = unknown_holding

unfoldable pub holding_details : {D : Type 0} → Python D → TimeValue → TimeValue → ℤ → Holding
unfolding holding_of parse_timestamp
holding_details py acquired_at reference_at =
    holding_of (parse_timestamp py acquired_at) (parse_timestamp py reference_at)
