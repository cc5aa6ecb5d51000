-- ===== src/Fifo/Holding/Laws.antt =====
-- When a holding is long-term, and what the days say about it.
use bitcoin_stack_tracker.Common.{
  ℕ, ◌+◌, ◌-◌, ◌*◌, ◌/◌, ◌≤◌, ◌≡◌, refl, some, true, false, ltb, leb, arith, if◌then◌else◌, Bool,
}
use bitcoin_stack_tracker.Common.Int.{ℤ}
use bitcoin_stack_tracker.Ledger.{Instant, day}
use bitcoin_stack_tracker.Fifo.Types.{HoldingStatus, long_term, short_term}
use bitcoin_stack_tracker.Fifo.Holding.{threshold_days, holding_of}

-- The class that the whole days held, against the threshold, stand for.
abbrev pub class_of_days : ℕ → ℕ → HoldingStatus
class_of_days threshold days = elim (leb threshold days) [ true ↦ long_term | false ↦ short_term ]

class_of_test :
    (test days : Bool)
    → test ≡ days
    → (if test then long_term else short_term) ≡ elim days [ true ↦ long_term | false ↦ short_term ]
class_of_test test days h = ground arith

-- One whole second, in microseconds.
abbrev pub microseconds : ℕ
microseconds = 1_000_000

days_threshold :
    (acquired reference threshold : ℕ)
    → acquired ≤ reference
    → leb (acquired + threshold * day) reference ≡ leb threshold ((reference - acquired) / day)
days_threshold acquired reference threshold h = ground arith

-- A lot acquired no later than the reference moment has been held for a number of whole days, and is
-- long-term exactly if these are at least the threshold; the long-term date is the threshold of
-- days after the acquisition.
pub holding_of-days :
    (acquired reference : Instant) (long_term_days : ℤ)
    → acquired ≤ reference
    → let h = holding_of (some acquired) (some reference) long_term_days in
      let days = (reference - acquired) / day in
      (h.holding_days ≡ some days)
      × (h.holding_status ≡ class_of_days (threshold_days long_term_days) days)
      × (h.long_term_date ≡ some (acquired + threshold_days long_term_days * day))
unfolding holding_of
holding_of-days acquired reference long_term_days h =
    let t = threshold_days long_term_days in
    let ordered : ltb reference acquired ≡ false = ground arith in
    rw ordered (
      refl,
      class_of_test (leb (acquired + t * day) reference) _ (days_threshold acquired reference t h),
      refl,
    )

-- The days until a lot is long-term, between moments that lie whole seconds apart: 0 exactly if it
-- is long-term, and else the fewest days after which it is.
pub days_until-least :
    (acquired seconds : ℕ) (long_term_days : ℤ)
    → let reference = acquired + seconds * microseconds in
      let h = holding_of (some acquired) (some reference) long_term_days in
      (n : ℕ) × (h.days_until_long_term ≡ some n)
      × (acquired + threshold_days long_term_days * day ≤ reference + n * day)
      × ((m : ℕ) → acquired + threshold_days long_term_days * day ≤ reference + m * day → n ≤ m)
unfolding holding_of
days_until-least acquired seconds long_term_days =
    let t = threshold_days long_term_days in
    let reference = acquired + seconds * microseconds in
    let ordered : ltb reference acquired ≡ false = ground arith in
    let n = (acquired + t * day + 86_399_000_000 - reference) / day in
    rw ordered (n, refl, omega arith, λ m h. omega arith)
