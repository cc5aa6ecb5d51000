-- ===== src/Fifo/Books.antt =====
-- What sales and expenses write in common: the classes of the BTC used, the gains, and how a
-- summary ends.
use bitcoin_stack_tracker.Common.{ℕ, ◌+◌, String, [], ◌∷◌, ◌++◌, ltb, if◌then◌else◌, texts}
use bitcoin_stack_tracker.Common.Int.{ℤ}
use bitcoin_stack_tracker.Common.Dict.{Dict, get_or, insert}
use bitcoin_stack_tracker.Ledger.{TimeValue, Python}
use bitcoin_stack_tracker.Fifo.Types.{
  HoldingStatus, unknown, long_term, short_term, mixed, Holding, Match, Summary, SummaryStatus,
  Totals,
}

-- The module's `_holding_details`, which the loops look up when they run; holding_cutoff.py puts
-- its own in this place.
abbrev pub Details : Type 0
Details = TimeValue → TimeValue → ℤ → Holding

-- The local variables that the body of the loop changes, beside the lots.
pub record Books (D : Type 0) : Type 0 where
  pub totals : Totals D
  pub summary : Summary D

module _ {D : Type 0} (py : Python D) where
  -- `d[currency] = d.get(currency, ZERO) + x`
  unfoldable pub add_to : String → D → Dict String D → Dict String D
  add_to currency x d = insert currency (py.plus (get_or currency py.nought d) x) d

-- `summary["…_term_btc"] += used`, by the class of the holding.
unfoldable pub add_class : {D : Type 0} → HoldingStatus → ℕ → Summary D → Summary D
add_class long_term used s = record s { long_term_btc = s.long_term_btc + used }
add_class short_term used s = record s { short_term_btc = s.short_term_btc + used }
add_class _ used s = record s { unknown_holding_btc = s.unknown_holding_btc + used }

module _ {D : Type 0} (py : Python D) where
  -- The gain of a resolved match, in the summary and in the totals of its currency.
  unfoldable pub add_gain_class : HoldingStatus → String → D → Books D → Books D
  unfolding add_to
  add_gain_class long_term currency gain b = record {
    totals = record b.totals {
      realized_long_term = add_to py currency gain b.totals.realized_long_term;
    };
    summary = record b.summary {
      long_term_realized_gain = py.plus b.summary.long_term_realized_gain gain;
    };
  }
  add_gain_class short_term currency gain b = record {
    totals = record b.totals {
      realized_short_term = add_to py currency gain b.totals.realized_short_term;
    };
    summary = record b.summary {
      short_term_realized_gain = py.plus b.summary.short_term_realized_gain gain;
    };
  }
  add_gain_class _ currency gain b = b

  unfoldable pub add_gain : HoldingStatus → String → ℕ → D → D → Books D → Books D
  unfolding add_gain_class add_to
  add_gain class currency used cost gain b = add_gain_class class currency gain (record {
    totals = record b.totals { realized = add_to py currency gain b.totals.realized };
    summary = record b.summary {
      resolved_btc = b.summary.resolved_btc + used;
      cost_basis = py.plus b.summary.cost_basis cost;
      realized_gain = py.plus b.summary.realized_gain gain;
    };
  })

-- `matches.append(…)`
unfoldable pub add_match : {D : Type 0} → Match D → Books D → Books D
add_match m b = record b { totals = record b.totals { matches = b.totals.matches ++ m ∷ [] } }

-- A class that holds some BTC counts.
abbrev some_btc : ℕ → ℕ
some_btc n = if ltb 0 n then 1 else 0

unfoldable pub summary_status : {D : Type 0} → Summary D → SummaryStatus
summary_status s =
    if ltb 0 s.oversold_btc
    then SummaryStatus.insufficient_stack
    else if ltb 0 s.unresolved_btc
    then (if ltb 0 s.resolved_btc
        then SummaryStatus.partially_resolved
        else SummaryStatus.unresolved)
    else SummaryStatus.resolved

unfoldable pub summary_holding : {D : Type 0} → Summary D → HoldingStatus
summary_holding s =
    let classes =
      some_btc s.long_term_btc + some_btc s.short_term_btc + some_btc s.unknown_holding_btc in
    if ltb 1 classes
    then mixed
    else if ltb 0 s.long_term_btc
    then long_term
    else if ltb 0 s.short_term_btc
    then short_term
    else unknown

-- The statuses that are set once the loop is over.
unfoldable pub close_summary : {D : Type 0} → Summary D → Summary D
unfolding summary_status summary_holding
close_summary s = record s { status = summary_status s; holding_status = summary_holding s }

-- What the loop could not take from any lot is oversold.
unfoldable pub add_oversold : {D : Type 0} → ℕ → Match D → Books D → Books D
unfolding add_match
add_oversold remaining m b =
    if ltb 0 remaining
    then add_match m (record {
      totals = record b.totals {
        oversold_btc = b.totals.oversold_btc + remaining;
        unresolved_btc = b.totals.unresolved_btc + remaining;
      };
      summary = record b.summary {
        oversold_btc = remaining;
        unresolved_btc = b.summary.unresolved_btc + remaining;
        unknown_holding_btc = b.summary.unknown_holding_btc + remaining;
      };
    })
    else b
