-- ===== src/Fifo/Rows.antt =====
-- The main loop of `fifo_result`: one row after another, each in its depot.
use bitcoin_stack_tracker.Common.{
  ℕ, Bool, true, false, Option, none, some, String, List, [], ◌∷◌, ◌++◌, nat_eq, if◌then◌else◌,
  ◌==◌, texts, keep,
}
use bitcoin_stack_tracker.Common.Dict.{Dict, get_or, insert}
use bitcoin_stack_tracker.Ledger.{
  Kind, purchase, income, stack, sale, expense, Entry, Python, decimal_value, clipped_sats,
  depot_of, is_text,
}
use bitcoin_stack_tracker.Ledger.Order.{sorted_entries}
use bitcoin_stack_tracker.Fifo.Types.{Lot, Totals, DepotLots, Fifo}
use bitcoin_stack_tracker.Fifo.Expand.{entries_with_btc_fee_disposals}
use bitcoin_stack_tracker.Fifo.Drain.{Drain}
use bitcoin_stack_tracker.Fifo.Books.{Details, Books, add_to, close_summary}
use bitcoin_stack_tracker.Fifo.Sale.{Disposal, sale_of, sale_books}
use bitcoin_stack_tracker.Fifo.Expense.{expense_of, expense_books}

abbrev pub no_lots : {D : Type 0} → DepotLots D
no_lots = record { lots = []; cursor = 0 }

abbrev pub no_totals : {D : Type 0} → Totals D
no_totals = record {
  matches = [];
  sales = [];
  expenses = [];
  transaction_fees = [];
  purchase_fees = [];
  income_fees = [];
  sale_fees = [];
  realized = [];
  realized_long_term = [];
  realized_short_term = [];
  unresolved_btc = 0;
  oversold_btc = 0;
}

-- The rows of one depot, or of all.
unfoldable pub in_depot : {D : Type 0} → Option String → Entry D → Bool
unfolding depot_of
in_depot none e = true
in_depot (some depot_id) e = depot_of e == depot_id

module _ {D : Type 0} (py : Python D) where
  -- The currency of a priced acquisition, if the row names one.
  unfoldable pub lot_currency : Option String → Option String
  unfolding is_text
  lot_currency none = none
  lot_currency (some currency) = if is_text currency then some (py.upper currency) else none

  -- `(amount * price + fee) / amount`
  unfoldable pub unit_basis : Entry D → ℕ → D
  unfolding decimal_value
  unit_basis e amount =
      py.over
        (py.plus (py.times (py.of_sats amount) (decimal_value py e.price)) (decimal_value py e.fee))
        (py.of_sats amount)

  -- The lot of an acquisition; a `stack` row has no cost.
  unfoldable pub lot_of : Bool → Entry D → Lot D
  unfolding clipped_sats depot_of lot_currency unit_basis
  lot_of priced e =
      let amount = clipped_sats e.amount_btc in
      record {
        entry_id = e.id;
        timestamp = e.timestamp;
        depot_id = depot_of e;
        original_btc = amount;
        remaining_btc = amount;
        currency = if priced then lot_currency e.currency else none;
        unit_basis = if priced then some (unit_basis e amount) else none;
        known_cost = priced;
        source_type = e.kind;
      }

  -- `if currency: fee_bucket[currency] = fee_bucket.get(currency, ZERO) + fee`
  unfoldable pub add_fee : Option String → D → Dict String D → Dict String D
  unfolding is_text add_to
  add_fee none fee bucket = bucket
  add_fee (some currency) fee bucket =
      if is_text currency then add_to py currency fee bucket else bucket

  unfoldable pub add_lot : Lot D → DepotLots D → DepotLots D
  add_lot lot depot = record depot { lots = depot.lots ++ lot ∷ [] }

  -- What a closed disposal leaves in its depot.
  unfoldable pub left_by : Drain D (Books D) → DepotLots D
  left_by s = record { lots = s.lots; cursor = s.cursor }

  unfoldable pub sale_totals : Drain D (Books D) → Entry D → Totals D
  unfolding close_summary
  sale_totals s e =
      let t = s.books.totals in
      record t { sales = insert e.id (close_summary s.books.summary) t.sales }

  unfoldable pub expense_totals : Drain D (Books D) → Disposal D → Entry D → Totals D
  unfolding close_summary
  expense_totals s d e =
      let t = s.books.totals in
      let closed = close_summary s.books.summary in
      if d.is_transaction_fee
      then record t { transaction_fees = insert d.id closed t.transaction_fees }
      else record t { expenses = insert e.id closed t.expenses }

  -- One row of a positive amount, by its kind, in the lots of its depot.
  unfoldable pub row_step :
      Details → ℕ → Kind → Entry D → DepotLots D → Totals D → DepotLots D × Totals D
  unfolding lot_of add_fee add_lot left_by sale_totals expense_totals sale_of sale_books expense_of
      expense_books decimal_value
  row_step details threshold purchase e depot t =
      let lot = lot_of true e in
      (
        add_lot lot depot,
        record t { purchase_fees = add_fee lot.currency (decimal_value py e.fee) t.purchase_fees },
      )
  row_step details threshold income e depot t =
      let lot = lot_of true e in
      (
        add_lot lot depot,
        record t { income_fees = add_fee lot.currency (decimal_value py e.fee) t.income_fees },
      )
  row_step details threshold stack e depot t = (add_lot (lot_of false e) depot, t)
  row_step details threshold expense e depot t =
      let d = expense_of py threshold e in
      let s = expense_books py details e.id d depot t in (left_by s, expense_totals s d e)
  row_step details threshold sale e depot t =
      let s = sale_books py details (sale_of py threshold e) depot t in (left_by s, sale_totals s e)
  row_step details threshold _ e depot t = (depot, t)

  -- A row without a positive amount is skipped.
  unfoldable pub fifo_step : Details → ℕ → Fifo D → Entry D → Fifo D
  unfolding clipped_sats depot_of row_step
  fifo_step details threshold f e =
      if nat_eq (clipped_sats e.amount_btc) 0
      then f
      else let name = depot_of e in
        let (depot, t) =
          row_step details threshold e.kind e (get_or name no_lots f.depots) f.totals in
        record { depots = insert name depot f.depots; totals = t }

  unfoldable pub fifo_rows : Details → ℕ → Fifo D → List (Entry D) → Fifo D
  unfolding fifo_step
  fifo_rows details threshold f [] = f
  fifo_rows details threshold f (e ∷ es) =
      fifo_rows details threshold (fifo_step details threshold f e) es

  unfoldable pub filtered : Option String → List (Entry D) → List (Entry D)
  unfolding in_depot sorted_entries entries_with_btc_fee_disposals
  filtered depot_id entries =
      keep (in_depot depot_id) (sorted_entries py (entries_with_btc_fee_disposals py entries))
