-- ===== src/Fifo/Balance/Sale.antt =====
-- A sale disposes of its whole amount.
use bitcoin_stack_tracker.Common.{ℕ, ◌-◌, ◌≤◌, refl, Option, none, some, arith}
use bitcoin_stack_tracker.Common.Int.{pos}
use bitcoin_stack_tracker.Ledger.{Python}
use bitcoin_stack_tracker.Fifo.Types.{HoldingStatus, Lot, Totals, DepotLots}
use bitcoin_stack_tracker.Fifo.Drain.Loop.{held}
use bitcoin_stack_tracker.Fifo.Books.{Details, Books}
use bitcoin_stack_tracker.Fifo.Sale.{
  Disposal, sale_gain, sale_match, sale_book, sale_summary, sale_oversold_match, sale_books,
}
use bitcoin_stack_tracker.Fifo.Balance.{
  IsAccounted, IsBalanced, IsSettled, class-IsAccounted, add_gain-IsAccounted, add_match-IsBalanced,
  use_lots-IsSettled,
}

module _ {D : Type 0} (py : Python D) (amount : ℕ) (before : Totals D) where
  sale_gain-IsAccounted :
      (d : Disposal D) (class : HoldingStatus) (used r : ℕ) (cost gain : Option D) (b : Books D)
      → IsAccounted amount before used used r b
      → IsAccounted amount before 0 used r (sale_gain py d class used cost gain b)
  unfolding sale_gain
  sale_gain-IsAccounted d class used r (some c) (some g) b h =
      add_gain-IsAccounted py amount before class d.currency used r c g b h
  sale_gain-IsAccounted d class used r none (some g) b h = ground arith
  sale_gain-IsAccounted d class used r none none b h = ground arith
  sale_gain-IsAccounted d class used r (some c) none b h = ground arith

  sale_book-IsBalanced :
      (details : Details) (d : Disposal D) (lot : Lot D) (used r : ℕ) (b : Books D)
      → used ≤ r
      → IsBalanced amount before r b
      → IsBalanced amount before (r - used) (sale_book py details d lot used b)
  unfolding sale_book
  sale_book-IsBalanced details d lot used r b u h =
      let holding = details lot.timestamp d.timestamp (pos d.threshold) in
      let m = sale_match py d holding lot used in
      let classed = class-IsAccounted py amount before holding.holding_status used r b u h in
      add_match-IsBalanced py amount before m (r - used) _ (
        sale_gain-IsAccounted d holding.holding_status used (r - used) m.cost_basis m.realized_gain
          _ classed)

-- A sale is settled: see `IsSettled`.
pub sale_books-IsSettled :
    {D : Type 0} (py : Python D) (details : Details) (d : Disposal D) (depot : DepotLots D)
    (t : Totals D)
    → IsSettled d.amount t (held depot.lots) (sale_books py details d depot t)
unfolding sale_books
sale_books-IsSettled py details d depot t =
    use_lots-IsSettled d.amount t depot (sale_book py details d)
      (sale_book-IsBalanced py d.amount t details d) _ (sale_oversold_match py d)
      (λ r. unfold sale_oversold_match in refl) (unfold sale_summary in ground arith)
