-- ===== src/Fifo/Sale.antt =====
-- The sales of `fifo_result`: what a match against a lot records, and the summary.
use bitcoin_stack_tracker.Common.{
  ℕ, Bool, true, false, Option, none, some, String, if◌then◌else◌, or_else, ◌==◌, ◌&&◌, texts, ◌+◌,
}
use bitcoin_stack_tracker.Common.Int.{pos}
use bitcoin_stack_tracker.Ledger.{
  Entry, TimeValue, Python, decimal_value, clipped_sats, depot_of, is_text,
}
use bitcoin_stack_tracker.Fifo.Types.{
  HoldingStatus, unknown, Holding, Lot, Match, Summary, Totals, DispositionType, MatchStatus,
  SummaryStatus, DepotLots,
}
use bitcoin_stack_tracker.Fifo.Holding.{unknown_holding}
use bitcoin_stack_tracker.Fifo.Drain.{Drain, drain}
use bitcoin_stack_tracker.Fifo.Books.{
  Details, Books, add_to, add_class, add_gain, add_match, add_oversold,
}

-- The local variables of one disposal. The last three are an expense's, false for a sale.
pub record Disposal (D : Type 0) : Type 0 where
  pub id : String
  pub timestamp : TimeValue
  pub depot_id : String
  pub amount : ℕ
  pub currency : String
  pub price : D
  pub fee : D
  pub threshold : ℕ
  pub is_transaction_fee : Bool
  pub fee_reference_priced : Bool
  pub priced : Bool

-- The lot's currency is known and is the currency of the disposal.
unfoldable pub same_currency : Option String → String → Bool
unfolding is_text
same_currency none currency = false
same_currency (some lot_currency) currency = is_text lot_currency && lot_currency == currency

module _ {D : Type 0} (py : Python D) where
  unfoldable pub sale_of : ℕ → Entry D → Disposal D
  unfolding decimal_value clipped_sats depot_of
  sale_of threshold e = record {
    id = e.id;
    timestamp = e.timestamp;
    depot_id = depot_of e;
    amount = clipped_sats e.amount_btc;
    currency = py.upper (or_else e.currency "");
    price = decimal_value py e.price;
    fee = decimal_value py e.fee;
    threshold = threshold;
    is_transaction_fee = false;
    fee_reference_priced = false;
    priced = false;
  }

  -- `used * price - fee * used / amount`
  unfoldable pub net_proceeds : Disposal D → ℕ → D
  net_proceeds d used =
      py.minus (py.times (py.of_sats used) d.price)
        (py.over (py.times d.fee (py.of_sats used)) (py.of_sats d.amount))

  -- `used * unit_basis`, where the lot's cost is known in the currency of the disposal.
  unfoldable pub match_cost : Disposal D → Lot D → ℕ → Option D
  unfolding decimal_value same_currency
  match_cost d lot used =
      if lot.known_cost && same_currency lot.currency d.currency
      then some (py.times (py.of_sats used) (decimal_value py lot.unit_basis))
      else none

  unfoldable pub match_gain : Option D → Option D → Option D
  match_gain (some proceeds) (some cost) = some (py.minus proceeds cost)
  match_gain _ _ = none

  unfoldable pub sale_match_status : Option D → Bool → MatchStatus
  sale_match_status (some gain) known = MatchStatus.resolved
  sale_match_status none false = MatchStatus.unknown_cost_basis
  sale_match_status none true = MatchStatus.currency_conversion_required

  unfoldable pub sale_match : Disposal D → Holding → Lot D → ℕ → Match D
  unfolding net_proceeds match_cost match_gain sale_match_status
  sale_match d holding lot used =
      let cost = match_cost d lot used in
      let gain = match_gain (some (net_proceeds d used)) cost in
      record {
        sale_id = d.id;
        disposition_id = d.id;
        disposition_type = DispositionType.sale;
        sale_timestamp = d.timestamp;
        purchase_id = some lot.entry_id;
        purchase_timestamp = some lot.timestamp;
        depot_id = d.depot_id;
        amount_btc = used;
        purchase_currency = lot.currency;
        sale_currency = d.currency;
        cost_basis = cost;
        net_proceeds = some (net_proceeds d used);
        realized_gain = gain;
        status = sale_match_status gain lot.known_cost;
        holding = holding;
      }

  -- The gain of a match, or BTC that stays unresolved.
  unfoldable pub sale_gain :
      Disposal D → HoldingStatus → ℕ → Option D → Option D → Books D → Books D
  unfolding add_gain
  sale_gain d class used (some cost) (some gain) b = add_gain py class d.currency used cost gain b
  sale_gain d class used _ _ b = record {
    totals = record b.totals { unresolved_btc = b.totals.unresolved_btc + used };
    summary = record b.summary { unresolved_btc = b.summary.unresolved_btc + used };
  }

  -- The body of the loop, but for the lot and what remains.
  unfoldable pub sale_book : Details → Disposal D → Lot D → ℕ → Books D → Books D
  unfolding sale_match sale_gain add_class add_match
  sale_book details d lot used b =
      let holding = details lot.timestamp d.timestamp (pos d.threshold) in
      let m = sale_match d holding lot used in
      add_match m (
        sale_gain d holding.holding_status used m.cost_basis m.realized_gain
          (record b { summary = add_class holding.holding_status used b.summary }))

  unfoldable pub sale_oversold_match : Disposal D → ℕ → Match D
  unfolding net_proceeds
  sale_oversold_match d remaining = record {
    sale_id = d.id;
    disposition_id = d.id;
    disposition_type = DispositionType.sale;
    sale_timestamp = d.timestamp;
    purchase_id = none;
    purchase_timestamp = none;
    depot_id = d.depot_id;
    amount_btc = remaining;
    purchase_currency = none;
    sale_currency = d.currency;
    cost_basis = none;
    net_proceeds = some (net_proceeds d remaining);
    realized_gain = none;
    status = MatchStatus.insufficient_stack;
    holding = unknown_holding;
  }

  unfoldable pub sale_summary : Disposal D → Summary D
  sale_summary d = record {
    entry_id = d.id;
    timestamp = d.timestamp;
    disposition_type = DispositionType.sale;
    depot_id = d.depot_id;
    amount_btc = d.amount;
    currency = d.currency;
    gross_proceeds = some (py.times (py.of_sats d.amount) d.price);
    fee_value_fiat = none;
    fee = d.fee;
    resolved_btc = 0;
    unresolved_btc = 0;
    oversold_btc = 0;
    cost_basis = py.nought;
    realized_gain = py.nought;
    unknown_cost_basis_btc = 0;
    long_term_btc = 0;
    short_term_btc = 0;
    unknown_holding_btc = 0;
    long_term_realized_gain = py.nought;
    short_term_realized_gain = py.nought;
    long_term_days = d.threshold;
    status = SummaryStatus.resolved;
    holding_status = unknown;
  }

-- The loop over the lots of the depot, with the books of one disposal.
unfoldable pub use_lots :
    {D : Type 0} → (Lot D → ℕ → Books D → Books D) → ℕ → DepotLots D → Books D → Drain D (Books D)
unfolding drain
use_lots book amount depot b =
    drain book (record { lots = depot.lots; cursor = depot.cursor; remaining = amount; books = b })

module _ {D : Type 0} (py : Python D) where
  -- The books when a sale begins: its fee is noted at once.
  unfoldable pub sale_opening : Disposal D → Totals D → Books D
  unfolding sale_summary add_to
  sale_opening d t = record {
    totals = record t { sale_fees = add_to py d.currency d.fee t.sale_fees };
    summary = sale_summary py d;
  }

  -- The books of a sale after the loop and the part that is oversold.
  unfoldable pub sale_books : Details → Disposal D → DepotLots D → Totals D → Drain D (Books D)
  unfolding use_lots sale_book add_oversold sale_oversold_match sale_opening
  sale_books details d depot t =
      let s = use_lots (sale_book py details d) d.amount depot (sale_opening d t) in
      record s { books = add_oversold s.remaining (sale_oversold_match py d s.remaining) s.books }
