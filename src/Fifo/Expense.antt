-- ===== src/Fifo/Expense.antt =====
-- The expenses of `fifo_result`, and BTC fees, which are expenses without proceeds.
use bitcoin_stack_tracker.Common.{
  ℕ, ◌+◌, Bool, true, false, Option, none, some, String, if◌then◌else◌, or_else, ◌&&◌, ◌||◌, not,
}
use bitcoin_stack_tracker.Common.Int.{pos}
use bitcoin_stack_tracker.Ledger.{Entry, Python, decimal_value, clipped_sats, depot_of, is_text}
use bitcoin_stack_tracker.Fifo.Types.{
  HoldingStatus, unknown, Holding, Lot, Match, Summary, Totals, DispositionType, MatchStatus,
  SummaryStatus, DepotLots,
}
use bitcoin_stack_tracker.Fifo.Holding.{unknown_holding}
use bitcoin_stack_tracker.Fifo.Drain.{Drain}
use bitcoin_stack_tracker.Fifo.Books.{Details, Books, add_class, add_gain, add_match, add_oversold}
use bitcoin_stack_tracker.Fifo.Sale.{Disposal, net_proceeds, match_cost, match_gain, use_lots}

-- `str(item.get("_source_entry_id") or item.get("id") or "")`
unfoldable pub source_entry_id : {D : Type 0} → Entry D → String
unfolding is_text
source_entry_id e = elim e.source_entry_id [
  | none ↦ e.id
  | some source ↦ if is_text source then source else e.id
]

-- `"fee" if is_transaction_fee else "expense"`
unfoldable pub expense_type : {D : Type 0} → Disposal D → DispositionType
expense_type d = if d.is_transaction_fee then DispositionType.fee else DispositionType.expense

module _ {D : Type 0} (py : Python D) where
  unfoldable pub expense_of : ℕ → Entry D → Disposal D
  unfolding decimal_value clipped_sats depot_of source_entry_id is_text
  expense_of threshold e =
      let currency = py.upper (or_else e.currency "") in
      let priced = is_text currency && py.is_positive (decimal_value py e.price) in
      record {
        id = source_entry_id e;
        timestamp = e.timestamp;
        depot_id = depot_of e;
        amount = clipped_sats e.amount_btc;
        currency = currency;
        price = decimal_value py e.price;
        fee = decimal_value py e.fee;
        threshold = threshold;
        is_transaction_fee = e.transaction_fee;
        fee_reference_priced = priced;
        priced = priced && not e.transaction_fee;
      }

  -- `expense_currency if fee_reference_priced else ""`
  unfoldable pub reference_currency : Disposal D → String
  reference_currency d = if d.fee_reference_priced then d.currency else ""

  -- The proceeds of `used`: 0 for a fee, none where no price is known.
  unfoldable pub expense_proceeds : Disposal D → ℕ → Option D
  unfolding net_proceeds
  expense_proceeds d used =
      if d.is_transaction_fee
      then some py.nought
      else if d.priced
      then some (net_proceeds py d used)
      else none

  unfoldable pub expense_match_status : Disposal D → Option D → Bool → MatchStatus
  expense_match_status d (some gain) known = MatchStatus.resolved
  expense_match_status d none false = MatchStatus.unknown_cost_basis
  expense_match_status d none true =
      if d.is_transaction_fee || d.fee_reference_priced
      then MatchStatus.currency_conversion_required
      else MatchStatus.unknown_proceeds

  unfoldable pub expense_match : Disposal D → Holding → Lot D → ℕ → Match D
  unfolding expense_type expense_proceeds match_cost match_gain expense_match_status
      reference_currency
  expense_match d holding lot used =
      let cost = match_cost py d lot used in
      let gain = match_gain py (expense_proceeds d used) cost in
      record {
        sale_id = d.id;
        disposition_id = d.id;
        disposition_type = expense_type d;
        sale_timestamp = d.timestamp;
        purchase_id = some lot.entry_id;
        purchase_timestamp = some lot.timestamp;
        depot_id = d.depot_id;
        amount_btc = used;
        purchase_currency = lot.currency;
        sale_currency = reference_currency d;
        cost_basis = cost;
        net_proceeds = expense_proceeds d used;
        realized_gain = gain;
        status = expense_match_status d gain lot.known_cost;
        holding = holding;
      }

  -- What an unresolved match adds to the summary beside its BTC: the BTC without a known cost, or
  -- else the cost of the lot.
  unfoldable pub add_open_cost : Lot D → ℕ → Summary D → Summary D
  add_open_cost lot used s =
      if not lot.known_cost
      then record s { unknown_cost_basis_btc = s.unknown_cost_basis_btc + used }
      else elim lot.unit_basis [
        | none ↦ s
        | some basis ↦ record s {
          cost_basis = py.plus s.cost_basis (py.times (py.of_sats used) basis);
        }
      ]

  unfoldable pub expense_gain :
      Disposal D → HoldingStatus → Lot D → ℕ → Option D → Option D → Books D → Books D
  unfolding add_gain add_open_cost
  expense_gain d class lot used (some cost) (some gain) b =
      add_gain py class d.currency used cost gain b
  expense_gain d class lot used _ _ b = record {
    totals = record b.totals { unresolved_btc = b.totals.unresolved_btc + used };
    summary =
        add_open_cost lot used
          (record b.summary { unresolved_btc = b.summary.unresolved_btc + used });
  }

  unfoldable pub expense_book : Details → Disposal D → Lot D → ℕ → Books D → Books D
  unfolding expense_match expense_gain add_class add_match
  expense_book details d lot used b =
      let holding = details lot.timestamp d.timestamp (pos d.threshold) in
      let m = expense_match d holding lot used in
      add_match m (
        expense_gain d holding.holding_status lot used m.cost_basis m.realized_gain
          (record b { summary = add_class holding.holding_status used b.summary }))

  unfoldable pub expense_oversold_match : Disposal D → ℕ → Match D
  unfolding expense_type expense_proceeds
  expense_oversold_match d remaining = record {
    sale_id = d.id;
    disposition_id = d.id;
    disposition_type = expense_type d;
    sale_timestamp = d.timestamp;
    purchase_id = none;
    purchase_timestamp = none;
    depot_id = d.depot_id;
    amount_btc = remaining;
    purchase_currency = none;
    sale_currency = if d.priced then d.currency else "";
    cost_basis = none;
    net_proceeds = expense_proceeds d remaining;
    realized_gain = none;
    status = MatchStatus.insufficient_stack;
    holding = unknown_holding;
  }

  -- The `entry_id` of the summary is the row's own id, unless it is a fee.
  unfoldable pub expense_summary : String → Disposal D → Summary D
  unfolding expense_type reference_currency
  expense_summary id d = record {
    entry_id = if d.is_transaction_fee then d.id else id;
    timestamp = d.timestamp;
    disposition_type = expense_type d;
    depot_id = d.depot_id;
    amount_btc = d.amount;
    currency = reference_currency d;
    gross_proceeds =
        if d.is_transaction_fee
        then some py.nought
        else if d.priced
        then some (py.times (py.of_sats d.amount) d.price)
        else none;
    fee_value_fiat =
        if d.is_transaction_fee && d.fee_reference_priced
        then some (py.times (py.of_sats d.amount) d.price)
        else none;
    fee = if d.is_transaction_fee then py.nought else if d.priced then d.fee else py.nought;
    resolved_btc = 0;
    unresolved_btc = 0;
    oversold_btc = 0;
    cost_basis = py.nought;
    realized_gain = py.nought;
    unknown_cost_basis_btc = 0;
    long_term_btc = 0;
    short_term_btc = 0;
    unknown_holding_btc = 0;
    long_term_realized_gain = py.nought;
    short_term_realized_gain = py.nought;
    long_term_days = d.threshold;
    status = SummaryStatus.resolved;
    holding_status = unknown;
  }

  -- The books when an expense begins.
  unfoldable pub expense_opening : String → Disposal D → Totals D → Books D
  unfolding expense_summary
  expense_opening id d t = record { totals = t; summary = expense_summary id d }

  -- The books of an expense after the loop and the part that is oversold.
  unfoldable pub expense_books :
      Details → String → Disposal D → DepotLots D → Totals D → Drain D (Books D)
  unfolding use_lots expense_book add_oversold expense_oversold_match expense_opening
  expense_books details id d depot t =
      let s = use_lots (expense_book details d) d.amount depot (expense_opening id d t) in
      record s { books = add_oversold s.remaining (expense_oversold_match d s.remaining) s.books }
