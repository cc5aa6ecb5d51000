-- ===== src/Fifo/Result.antt =====
-- What `fifo_result` returns: the open lots with their holding periods, the sums, the totals.
pub mod Laws
use bitcoin_stack_tracker.Common.{
  ℕ, ◌-◌, Bool, true, false, Option, none, some, String, List, [], ◌∷◌, ◌++◌, leb, if◌then◌else◌,
  sum_of, sum_if,
}
use bitcoin_stack_tracker.Common.Int.{ℤ, pos}
use bitcoin_stack_tracker.Common.Dict.{Dict}
use bitcoin_stack_tracker.Ledger.{
  Entry, Python, Instant, TimeValue, moment, Datetime, east, to_utc, day,
}
use bitcoin_stack_tracker.Fifo.Types.{
  HoldingStatus, long_term, short_term, Holding, Lot, Totals, DepotLots, Fifo,
}
use bitcoin_stack_tracker.Fifo.Holding.{threshold_days}
use bitcoin_stack_tracker.Fifo.Books.{Details}
use bitcoin_stack_tracker.Fifo.Rows.{no_totals, fifo_rows, filtered}

-- `enriched`: a lot with its holding period at the reference moment.
pub record OpenLot (D : Type 0) : Type 0 where
  pub lot : Lot D
  pub holding : Holding

-- The dict that `fifo_result` returns.
pub record FifoResult (D : Type 0) : Type 0 where
  pub open_lots : List (OpenLot D)
  pub totals : Totals D
  pub total_btc : ℕ
  pub known_btc : ℕ
  pub unknown_btc : ℕ
  pub long_term_btc : ℕ
  pub short_term_btc : ℕ
  pub unknown_holding_btc : ℕ
  pub next_long_term_date : Option Instant
  pub next_long_term_btc : ℕ
  pub long_term_days : ℕ
  pub as_of : Datetime

abbrev pub is_long_term : HoldingStatus → Bool
is_long_term long_term = true
is_long_term _ = false

abbrev pub is_short_term : HoldingStatus → Bool
is_short_term short_term = true
is_short_term _ = false

-- The lots of all depots, in the order in which the depots first appear.
unfoldable pub all_lots : {D : Type 0} → Dict String (DepotLots D) → List (Lot D)
all_lots [] = []
all_lots ((name, depot) ∷ depots) = depot.lots ++ all_lots depots

-- The lots that still hold BTC.
unfoldable pub open_lots : {D : Type 0} → Details → TimeValue → ℕ → List (Lot D) → List (OpenLot D)
open_lots details reference threshold [] = []
open_lots details reference threshold (lot ∷ lots) =
    let rest = open_lots details reference threshold lots in
    if leb lot.remaining_btc 0
    then rest
    else record { lot = lot; holding = details lot.timestamp reference (pos threshold) } ∷ rest

abbrev pub open_btc : {D : Type 0} → OpenLot D → ℕ
open_btc o = o.lot.remaining_btc

-- `upcoming[0]`: the short-term lot with the earliest date; the first of equals, as `sorted` is
-- stable. The source compares the ISO texts of UTC instants.
unfoldable pub next_long_term : {D : Type 0} → List (OpenLot D) → Option (Instant × ℕ)
next_long_term [] = none
next_long_term (o ∷ os) =
    let rest = next_long_term os in
    if is_short_term o.holding.holding_status
    then elim o.holding.long_term_date [
      | none ↦ rest
      | some date ↦ elim rest [
        | none ↦ some (date, o.lot.remaining_btc)
        | some later ↦ if leb date later.0 then some (date, o.lot.remaining_btc) else some later
      ]
    ]
    else rest

abbrev next_date : Option (Instant × ℕ) → Option Instant
next_date none = none
next_date (some (date, btc)) = some date

abbrev next_btc : Option (Instant × ℕ) → ℕ
next_btc none = 0
next_btc (some (date, btc)) = btc

unfoldable pub fifo_report : {D : Type 0} → Details → Datetime → ℕ → Fifo D → FifoResult D
unfolding open_lots all_lots next_long_term
fifo_report details reference threshold f =
    let lots = open_lots details (moment reference) threshold (all_lots f.depots) in
    let total = sum_of open_btc lots in
    let known = sum_if (λ o. o.lot.known_cost) open_btc lots in
    let long = sum_if (λ o. is_long_term o.holding.holding_status) open_btc lots in
    let short = sum_if (λ o. is_short_term o.holding.holding_status) open_btc lots in
    let next = next_long_term lots in
    record {
      open_lots = lots;
      totals = f.totals;
      total_btc = total;
      known_btc = known;
      unknown_btc = total - known;
      long_term_btc = long;
      short_term_btc = short;
      unknown_holding_btc = total - long - short;
      next_long_term_date = next_date next;
      next_long_term_btc = next_btc next;
      long_term_days = threshold;
      as_of = reference;
    }

-- A UTC instant as an aware datetime.
abbrev pub utc_datetime : Instant → Datetime
utc_datetime instant = record { wall = instant - day; offset = some (east 0) }

-- The reference moment is the argument `as_of`, or the present moment, at UTC.
unfoldable pub fifo_result :
    {D : Type 0} → Python D → Details → Option String → ℤ → Datetime → List (Entry D) → FifoResult D
unfolding fifo_report fifo_rows filtered threshold_days to_utc
fifo_result py details depot_id long_term_days as_of entries =
    let threshold = threshold_days long_term_days in
    fifo_report details (utc_datetime (to_utc as_of)) threshold (
      fifo_rows py details threshold (record { depots = []; totals = no_totals })
        (filtered py depot_id entries))
