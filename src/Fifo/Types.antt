-- ===== src/Fifo/Types.antt =====
-- The dicts of fifo.py as records: lots, matches, summaries of a disposal, the running totals.
use bitcoin_stack_tracker.Common.{ℕ, Bool, Option, String, List}
use bitcoin_stack_tracker.Common.Dict.{Dict}
use bitcoin_stack_tracker.Ledger.{Kind, TimeValue, Instant}

-- The values of `holding_status`; only a summary is `mixed`.
pub data HoldingStatus : Type 0 where
  unknown long_term short_term mixed : HoldingStatus

-- What `_holding_details` returns. The last two fields are those that holding_cutoff.py adds.
pub record Holding : Type 0 where
  pub holding_days : Option ℕ
  pub holding_status : HoldingStatus
  pub long_term_date : Option Instant
  pub days_until_long_term : Option ℕ
  pub tax_cutoff_blocked : Bool
  pub tax_cutoff_date : String

pub record Lot (D : Type 0) : Type 0 where
  pub entry_id : String
  pub timestamp : TimeValue
  pub depot_id : String
  pub original_btc : ℕ
  pub remaining_btc : ℕ
  pub currency : Option String
  pub unit_basis : Option D
  pub known_cost : Bool
  pub source_type : Kind

pub data DispositionType : Type 0 where
  sale expense fee : DispositionType

pub data MatchStatus : Type 0 where
  resolved unknown_cost_basis currency_conversion_required unknown_proceeds : MatchStatus
  insufficient_stack : MatchStatus

pub record Match (D : Type 0) : Type 0 where
  pub sale_id : String
  pub disposition_id : String
  pub disposition_type : DispositionType
  pub sale_timestamp : TimeValue
  pub purchase_id : Option String
  pub purchase_timestamp : Option TimeValue
  pub depot_id : String
  pub amount_btc : ℕ
  pub purchase_currency : Option String
  pub sale_currency : String
  pub cost_basis : Option D
  pub net_proceeds : Option D
  pub realized_gain : Option D
  pub status : MatchStatus
  pub holding : Holding

pub data SummaryStatus : Type 0 where
  insufficient_stack partially_resolved unresolved resolved : SummaryStatus

-- `sale_summary` and `expense_summary`. A sale has no `fee_value_fiat` and counts no
-- `unknown_cost_basis_btc`.
pub record Summary (D : Type 0) : Type 0 where
  pub entry_id : String
  pub timestamp : TimeValue
  pub disposition_type : DispositionType
  pub depot_id : String
  pub amount_btc : ℕ
  pub currency : String
  pub gross_proceeds : Option D
  pub fee_value_fiat : Option D
  pub fee : D
  pub resolved_btc : ℕ
  pub unresolved_btc : ℕ
  pub oversold_btc : ℕ
  pub cost_basis : D
  pub realized_gain : D
  pub unknown_cost_basis_btc : ℕ
  pub long_term_btc : ℕ
  pub short_term_btc : ℕ
  pub unknown_holding_btc : ℕ
  pub long_term_realized_gain : D
  pub short_term_realized_gain : D
  pub long_term_days : ℕ
  pub status : SummaryStatus
  pub holding_status : HoldingStatus

-- The local variables of `fifo_result` that the rows add to, but for the lots.
pub record Totals (D : Type 0) : Type 0 where
  pub matches : List (Match D)
  pub sales : Dict String (Summary D)
  pub expenses : Dict String (Summary D)
  pub transaction_fees : Dict String (Summary D)
  pub purchase_fees : Dict String D
  pub income_fees : Dict String D
  pub sale_fees : Dict String D
  pub realized : Dict String D
  pub realized_long_term : Dict String D
  pub realized_short_term : Dict String D
  pub unresolved_btc : ℕ
  pub oversold_btc : ℕ

-- The lots of one depot, and the index of the first that may still hold BTC.
pub record DepotLots (D : Type 0) : Type 0 where
  pub lots : List (Lot D)
  pub cursor : ℕ

-- `lots_by_depot` and `lot_cursor_by_depot` together, and the totals.
pub record Fifo (D : Type 0) : Type 0 where
  pub depots : Dict String (DepotLots D)
  pub totals : Totals D
