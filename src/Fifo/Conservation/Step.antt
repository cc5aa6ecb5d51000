-- ===== src/Fifo/Conservation/Step.antt =====
-- Each row moves what it says; the sums over the depots follow.
use bitcoin_stack_tracker.Common.{
  ℕ, ◌+◌, ◌≡◌, refl, Bool, true, false, Option, String, List, [], ◌∷◌, sum_of, sum_of-append, arith,
  nat_eq, nat_eq_iff, inl, inr, Bool-cases, texts, sum_if,
}
use bitcoin_stack_tracker.Common.Int.{ℤ}
use bitcoin_stack_tracker.Common.Dict.{Dict, get_or, insert}
use bitcoin_stack_tracker.Ledger.{
  Kind, purchase, income, stack, sale, expense, network_fee, other, Entry, Python, clipped_sats,
  TimeValue, depot_of, Datetime, moment, to_utc,
}
use bitcoin_stack_tracker.Fifo.Types.{Lot, Totals, DepotLots, Fifo}
use bitcoin_stack_tracker.Fifo.Drain.Loop.{held}
use bitcoin_stack_tracker.Fifo.Books.{Details}
use bitcoin_stack_tracker.Fifo.Sale.{sale_of}
use bitcoin_stack_tracker.Fifo.Expense.{expense_of}
use bitcoin_stack_tracker.Fifo.Rows.{
  no_lots, no_totals, lot_of, add_lot, left_by, sale_totals, expense_totals, row_step, fifo_step,
  fifo_rows, in_depot, filtered,
}
use bitcoin_stack_tracker.Fifo.Result.{all_lots, open_lots, open_btc, fifo_result, utc_datetime}
use bitcoin_stack_tracker.Fifo.Holding.{threshold_days}
use bitcoin_stack_tracker.Fifo.Balance.{matched}
use bitcoin_stack_tracker.Fifo.Balance.Sale.{sale_books-IsSettled}
use bitcoin_stack_tracker.Fifo.Balance.Expense.{expense_books-IsSettled}
use bitcoin_stack_tracker.Fifo.Conservation.Flow.{
  inflow, outflow, inflow_of, outflow_of, spent, filtered-flows,
}

flows-zero : (k : Kind) (n : ℕ) → n ≡ 0 → (inflow_of k n ≡ 0) × (outflow_of k n ≡ 0)
flows-zero k n h = ground arith

module _ {D : Type 0} (py : Python D) (details : Details) (threshold : ℕ) where
  -- From a depot's lots and the totals to those after a row that brings in and takes out so much.
  record Moves (brought taken : ℕ) (depot : DepotLots D) (t : Totals D) (depot' : DepotLots D)
      (t' : Totals D) : Type 0 where
    lots : held depot'.lots + taken + t.oversold_btc ≡ held depot.lots + brought + t'.oversold_btc
    matches : matched t'.matches ≡ matched t.matches + taken

  add_lot-Moves :
      (priced : Bool) (e : Entry D) (depot : DepotLots D) (t t' : Totals D)
      → t'.oversold_btc ≡ t.oversold_btc
      → t'.matches ≡ t.matches
      → Moves (clipped_sats e.amount_btc) 0 depot t (add_lot py (lot_of py priced e) depot) t'
  unfolding add_lot lot_of
  add_lot-Moves priced e depot t t' h k =
      let lot = lot_of py priced e in
      ground (arith, sum_of-append (λ l. l.remaining_btc) depot.lots (lot ∷ []))

  row_step-Moves :
      (k : Kind) (e : Entry D) (depot : DepotLots D) (t : Totals D)
      → let amount = clipped_sats e.amount_btc in
        let (depot', t') = row_step py details threshold k e depot t in
        Moves (inflow_of k amount) (outflow_of k amount) depot t depot' t'
  unfolding row_step left_by sale_totals expense_totals
  row_step-Moves purchase e depot t = add_lot-Moves true e depot t _ refl refl
  row_step-Moves income e depot t = add_lot-Moves true e depot t _ refl refl
  row_step-Moves stack e depot t = add_lot-Moves false e depot t t refl refl
  row_step-Moves sale e depot t =
      let h = sale_books-IsSettled py details (sale_of py threshold e) depot t in
      unfold sale_of in ground (arith, h)
  row_step-Moves expense e depot t =
      let h = expense_books-IsSettled py details e.id (expense_of py threshold e) depot t in
      unfold expense_of in ground (arith, h)
  row_step-Moves network_fee e depot t = ground arith
  row_step-Moves other e depot t = ground arith

  -- What the lots of all depots hold.
  abbrev held_all : Dict String (DepotLots D) → ℕ
  held_all depots = held (all_lots depots)

  held_all-insert :
      (name : String) (depot : DepotLots D) (depots : Dict String (DepotLots D))
      → held_all (insert name depot depots) + held (get_or name no_lots depots).lots
        ≡ held_all depots + held depot.lots
  unfolding all_lots
  held_all-insert name depot [] =
      ground (arith, sum_of-append (λ (l : Lot D). l.remaining_btc) depot.lots [])
  held_all-insert name depot ((j, old) ∷ depots) =
      let amount = λ (l : Lot D). l.remaining_btc in
      ground (
        arith,
        held_all-insert name depot depots,
        sum_of-append amount old.lots (all_lots depots),
        sum_of-append amount depot.lots (all_lots depots),
        sum_of-append amount old.lots (all_lots (insert name depot depots)),
      )

  fifo_step-moves :
      (f : Fifo D) (e : Entry D)
      → let f' = fifo_step py details threshold f e in
        (held_all f'.depots + outflow e + f.totals.oversold_btc
          ≡ held_all f.depots + inflow e + f'.totals.oversold_btc)
        × (matched f'.totals.matches ≡ matched f.totals.matches + outflow e)
  unfolding fifo_step
  fifo_step-moves f e =
      let amount = clipped_sats e.amount_btc in
      let depot = get_or (depot_of e) no_lots f.depots in
      let after = row_step py details threshold e.kind e depot f.totals in
      let m = row_step-Moves e.kind e depot f.totals in
      elim (Bool-cases (nat_eq amount 0)) [
        | inl none_moved ↦
            let z = flows-zero e.kind amount ((nat_eq_iff amount 0).0 none_moved) in
            rw none_moved (omega (arith, z.0, z.1), omega (arith, z.1))
        | inr some_moved ↦ rw some_moved (
          omega (arith, m, m.lots, m.matches, held_all-insert (depot_of e) after.0 f.depots),
          m.matches,
        )
      ]

  fifo_rows-moves :
      (f : Fifo D) (es : List (Entry D))
      → let f' = fifo_rows py details threshold f es in
        (held_all f'.depots + sum_of outflow es + f.totals.oversold_btc
          ≡ held_all f.depots + sum_of inflow es + f'.totals.oversold_btc)
        × (matched f'.totals.matches ≡ matched f.totals.matches + sum_of outflow es)
  unfolding fifo_rows
  fifo_rows-moves f [] = (omega arith, omega arith)
  fifo_rows-moves f (e ∷ es) =
      let s = fifo_step-moves f e in
      let r = fifo_rows-moves (fifo_step py details threshold f e) es in
      (omega (arith, s.0, s.1, r.0, r.1), omega (arith, s.0, s.1, r.0, r.1))

-- Dropping the empty lots drops no BTC.
pub sum-open_lots :
    {D : Type 0} (details : Details) (reference : TimeValue) (threshold : ℕ) (lots : List (Lot D))
    → sum_of open_btc (open_lots details reference threshold lots) ≡ held lots
unfolding open_lots
sum-open_lots details reference threshold [] = refl
sum-open_lots details reference threshold (l ∷ lots) =
    ground (arith, sum-open_lots details reference threshold lots)

-- The BTC of the open lots and what the ledger takes out make up what it brings in and what was
-- oversold, and the matches account for all that it takes out: for one depot or for all, whatever
-- the rows, their order, the holding rule and the prices.
pub fifo_result_conserves :
    {D : Type 0} (py : Python D) (details : Details) (depot : Option String) (long_term_days : ℤ)
    (as_of : Datetime) (entries : List (Entry D))
    → let r = fifo_result py details depot long_term_days as_of entries in
      (r.total_btc + sum_if (in_depot depot) spent entries
        ≡ sum_if (in_depot depot) inflow entries + r.totals.oversold_btc)
      × (matched r.totals.matches ≡ sum_if (in_depot depot) spent entries)
unfolding fifo_result
fifo_result_conserves py details depot long_term_days as_of entries =
    let threshold = threshold_days long_term_days in
    let start : Fifo _ = record { depots = []; totals = no_totals } in
    let rows = filtered py depot entries in
    let f = fifo_rows py details threshold start rows in
    let m = fifo_rows-moves py details threshold start rows in
    let flows = filtered-flows py depot entries in
    let whole =
      sum-open_lots details (moment (utc_datetime (to_utc as_of))) threshold (all_lots f.depots) in
    unfold all_lots in (omega (arith, m.0, flows.0, flows.1, whole), omega (arith, m.1, flows.1))
