-- ===== src/Fifo/Gains/Result.antt =====
-- The realized gains that `fifo_result` returns.
use bitcoin_stack_tracker.Common.{
  ℕ, refl, Option, String, List, [], ◌∷◌, nat_eq, inl, inr, Bool-cases, texts,
}
use bitcoin_stack_tracker.Common.Dict.{get_or}
use bitcoin_stack_tracker.Common.Int.{ℤ}
use bitcoin_stack_tracker.Ledger.{
  Kind, purchase, income, stack, sale, expense, network_fee, other, Entry, Python, clipped_sats,
  depot_of, Datetime,
}
use bitcoin_stack_tracker.Fifo.Types.{Totals, DepotLots, Fifo}
use bitcoin_stack_tracker.Fifo.Drain.{Drain}
use bitcoin_stack_tracker.Fifo.Books.{Details, Books}
use bitcoin_stack_tracker.Fifo.Sale.{Disposal, sale_of}
use bitcoin_stack_tracker.Fifo.Expense.{expense_of, expense_books}
use bitcoin_stack_tracker.Fifo.Rows.{
  no_lots, no_totals, sale_totals, expense_totals, row_step, fifo_step, fifo_rows, filtered,
}
use bitcoin_stack_tracker.Fifo.Result.{fifo_result}
use bitcoin_stack_tracker.Fifo.Holding.{threshold_days}
use bitcoin_stack_tracker.Fifo.Gains.{IsRealized}
use bitcoin_stack_tracker.Fifo.Gains.Matches.{sale_books-IsRealized, expense_books-IsRealized}

module _ {D : Type 0} (py : Python D) where
  expense_totals-IsRealized :
      (s : Drain D (Books D)) (d : Disposal D) (e : Entry D)
      → IsRealized py s.books.totals
      → IsRealized py (expense_totals py s d e)
  unfolding expense_totals
  expense_totals-IsRealized s d e h = elim (Bool-cases d.is_transaction_fee) [
    | inl fee ↦ rw fee h
    | inr own ↦ rw own h
  ]

  row_step-IsRealized :
      (details : Details) (threshold : ℕ) (k : Kind) (e : Entry D) (depot : DepotLots D)
      (t : Totals D)
      → IsRealized py t
      → IsRealized py (row_step py details threshold k e depot t).1
  unfolding row_step sale_totals
  row_step-IsRealized details threshold purchase e depot t h = h
  row_step-IsRealized details threshold income e depot t h = h
  row_step-IsRealized details threshold stack e depot t h = h
  row_step-IsRealized details threshold sale e depot t h =
      sale_books-IsRealized py details (sale_of py threshold e) depot t h
  row_step-IsRealized details threshold expense e depot t h =
      let d = expense_of py threshold e in
      expense_totals-IsRealized (expense_books py details e.id d depot t) d e
        (expense_books-IsRealized py details e.id d depot t h)
  row_step-IsRealized details threshold network_fee e depot t h = h
  row_step-IsRealized details threshold other e depot t h = h

  fifo_step-IsRealized :
      (details : Details) (threshold : ℕ) (f : Fifo D) (e : Entry D)
      → IsRealized py f.totals
      → IsRealized py (fifo_step py details threshold f e).totals
  unfolding fifo_step
  fifo_step-IsRealized details threshold f e h =
      elim (Bool-cases (nat_eq (clipped_sats e.amount_btc) 0)) [
        | inl skipped ↦ rw skipped h
        | inr counted ↦ rw counted (
            row_step-IsRealized details threshold e.kind e (get_or (depot_of e) no_lots f.depots)
              f.totals h)
      ]

  fifo_rows-IsRealized :
      (details : Details) (threshold : ℕ) (f : Fifo D) (es : List (Entry D))
      → IsRealized py f.totals
      → IsRealized py (fifo_rows py details threshold f es).totals
  unfolding fifo_rows
  fifo_rows-IsRealized details threshold f [] h = h
  fifo_rows-IsRealized details threshold f (e ∷ es) h =
      fifo_rows-IsRealized details threshold (fifo_step py details threshold f e) es
        (fifo_step-IsRealized details threshold f e h)

-- Under every currency, the realized gains of the result are the sum, in the order of the matches,
-- of the gains of the resolved matches whose lot was bought in this currency; the long-term and
-- the short-term gains are those of the matches of these holding periods.
pub fifo_result-IsRealized :
    {D : Type 0} (py : Python D) (details : Details) (depot : Option String) (long_term_days : ℤ)
    (as_of : Datetime) (entries : List (Entry D))
    → IsRealized py (fifo_result py details depot long_term_days as_of entries).totals
unfolding fifo_result
fifo_result-IsRealized py details depot long_term_days as_of entries =
    fifo_rows-IsRealized py details (threshold_days long_term_days)
      (record { depots = []; totals = no_totals }) (filtered py depot entries)
      ((λ c. refl), (λ c. refl), λ c. refl)
