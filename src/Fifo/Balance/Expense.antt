-- ===== src/Fifo/Balance/Expense.antt =====
-- An expense, or a BTC fee, disposes of its whole amount.
use bitcoin_stack_tracker.Common.{ℕ, ◌+◌, ◌-◌, ◌≤◌, refl, Option, none, some, arith, String}
use bitcoin_stack_tracker.Common.Int.{pos}
use bitcoin_stack_tracker.Ledger.{Python}
use bitcoin_stack_tracker.Fifo.Types.{HoldingStatus, Lot, Totals, DepotLots}
use bitcoin_stack_tracker.Fifo.Drain.Loop.{held}
use bitcoin_stack_tracker.Fifo.Books.{Details, Books}
use bitcoin_stack_tracker.Fifo.Sale.{Disposal}
use bitcoin_stack_tracker.Fifo.Expense.{
  add_open_cost, expense_gain, expense_match, expense_book, expense_summary, expense_oversold_match,
  expense_books,
}
use bitcoin_stack_tracker.Fifo.Balance.{
  IsAccounted, IsBalanced, IsSettled, class-IsAccounted, add_gain-IsAccounted, add_match-IsBalanced,
  use_lots-IsSettled,
}

module _ {D : Type 0} (py : Python D) (amount : ℕ) (before : Totals D) where
  -- The cost of an unresolved match changes no amount that the invariant speaks of.
  open_cost-IsAccounted :
      (lot : Lot D) (used r : ℕ) (b : Books D)
      → IsAccounted amount before used used r b
      → IsAccounted amount before 0 used r (record {
        totals = record b.totals { unresolved_btc = b.totals.unresolved_btc + used };
        summary =
            add_open_cost py lot used
              (record b.summary { unresolved_btc = b.summary.unresolved_btc + used });
      })
  unfolding add_open_cost
  open_cost-IsAccounted lot used r b h = ground arith

  expense_gain-IsAccounted :
      (d : Disposal D) (class : HoldingStatus) (lot : Lot D) (used r : ℕ) (cost gain : Option D)
      (b : Books D)
      → IsAccounted amount before used used r b
      → IsAccounted amount before 0 used r (expense_gain py d class lot used cost gain b)
  unfolding expense_gain
  expense_gain-IsAccounted d class lot used r (some c) (some g) b h =
      add_gain-IsAccounted py amount before class d.currency used r c g b h
  expense_gain-IsAccounted d class lot used r none (some g) b h =
      open_cost-IsAccounted lot used r b h
  expense_gain-IsAccounted d class lot used r none none b h = open_cost-IsAccounted lot used r b h
  expense_gain-IsAccounted d class lot used r (some c) none b h =
      open_cost-IsAccounted lot used r b h

  expense_book-IsBalanced :
      (details : Details) (d : Disposal D) (lot : Lot D) (used r : ℕ) (b : Books D)
      → used ≤ r
      → IsBalanced amount before r b
      → IsBalanced amount before (r - used) (expense_book py details d lot used b)
  unfolding expense_book
  expense_book-IsBalanced details d lot used r b u h =
      let holding = details lot.timestamp d.timestamp (pos d.threshold) in
      let m = expense_match py d holding lot used in
      add_match-IsBalanced py amount before m (r - used) _ (
        expense_gain-IsAccounted d holding.holding_status lot used (r - used) m.cost_basis
          m.realized_gain _
          (class-IsAccounted py amount before holding.holding_status used r b u h))

-- An expense or a BTC fee is settled: see `IsSettled`.
pub expense_books-IsSettled :
    {D : Type 0} (py : Python D) (details : Details) (id : String) (d : Disposal D)
    (depot : DepotLots D) (t : Totals D)
    → IsSettled d.amount t (held depot.lots) (expense_books py details id d depot t)
unfolding expense_books
expense_books-IsSettled py details id d depot t =
    use_lots-IsSettled d.amount t depot (expense_book py details d)
      (expense_book-IsBalanced py d.amount t details d) _ (expense_oversold_match py d)
      (λ r. unfold expense_oversold_match in refl) (unfold expense_summary in ground arith)
