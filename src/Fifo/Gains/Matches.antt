-- ===== src/Fifo/Gains/Matches.antt =====
-- What a sale or an expense writes keeps the realized gains the sums over the matches.
use bitcoin_stack_tracker.Common.{
  ℕ, ◌≡◌, refl, Option, none, some, String, arith, inl, inr, Bool-cases, Option-cases, ◌==◌, texts,
  eq_iff, ltb,
}
use bitcoin_stack_tracker.Common.Int.{pos}
use bitcoin_stack_tracker.Ledger.{Python}
use bitcoin_stack_tracker.Fifo.Types.{Lot, Match, Totals, DepotLots}
use bitcoin_stack_tracker.Fifo.Drain.Loop.{drain-books}
use bitcoin_stack_tracker.Fifo.Books.{Details, Books, add_class, add_match, add_oversold}
use bitcoin_stack_tracker.Fifo.Sale.{
  Disposal, same_currency, match_cost, match_gain, net_proceeds, sale_match, sale_gain, sale_book,
  sale_opening, sale_books, sale_oversold_match, use_lots,
}
use bitcoin_stack_tracker.Fifo.Expense.{
  expense_match, expense_gain, expense_book, expense_opening, expense_books, expense_oversold_match,
}
use bitcoin_stack_tracker.Fifo.Gains.{IsRealized, add_match-unresolved, add_gain-IsRealized}

module _ {D : Type 0} (py : Python D) where
  -- A match has a cost only against a lot of the disposal's currency.
  match_cost-currency :
      (d : Disposal D) (lot : Lot D) (used : ℕ) (cost : D)
      → match_cost py d lot used ≡ some cost
      → lot.currency ≡ some d.currency
  unfolding match_cost same_currency
  match_cost-currency d lot used cost h = elim (Option-cases lot.currency) [
    | inl e ↦ ground arith
    | inr (x, e) ↦ elim (Bool-cases (x == d.currency)) [
      | inl same ↦ rw (e, (eq_iff x d.currency).0 same)
      | inr differs ↦ ground arith
    ]
  ]

  -- A gain has a cost, in the currency of the disposal.
  IsPriced : Disposal D → Match D → Type 0
  IsPriced d m =
      (gain : D)
      → m.realized_gain ≡ some gain
      → (cost : D) × (m.cost_basis ≡ some cost) × (m.purchase_currency ≡ some d.currency)

  sale_gain-IsRealized :
      (d : Disposal D) (m : Match D) (used : ℕ) (cost gain : Option D) (b : Books D)
      → m.cost_basis ≡ cost
      → m.realized_gain ≡ gain
      → IsPriced d m
      → IsRealized py b.totals
      → IsRealized py
          (add_match m (sale_gain py d m.holding.holding_status used cost gain b)).totals
  unfolding sale_gain IsPriced
  sale_gain-IsRealized d m used (some cost) (some gain) b c g p h =
      add_gain-IsRealized py m d.currency gain g (p gain g).2 m.holding.holding_status used cost b
        refl h
  sale_gain-IsRealized d m used (some cost) none b c g p h = add_match-unresolved py m _ g h
  sale_gain-IsRealized d m used none none b c g p h = add_match-unresolved py m _ g h
  sale_gain-IsRealized d m used none (some gain) b c g p h =
      let (cost, e, _) = p gain g in absurd (cc)

  expense_gain-IsRealized :
      (d : Disposal D) (lot : Lot D) (m : Match D) (used : ℕ) (cost gain : Option D) (b : Books D)
      → m.cost_basis ≡ cost
      → m.realized_gain ≡ gain
      → IsPriced d m
      → IsRealized py b.totals
      → IsRealized py
          (add_match m (expense_gain py d m.holding.holding_status lot used cost gain b)).totals
  unfolding expense_gain IsPriced
  expense_gain-IsRealized d lot m used (some cost) (some gain) b c g p h =
      add_gain-IsRealized py m d.currency gain g (p gain g).2 m.holding.holding_status used cost b
        refl h
  expense_gain-IsRealized d lot m used (some cost) none b c g p h = add_match-unresolved py m _ g h
  expense_gain-IsRealized d lot m used none none b c g p h = add_match-unresolved py m _ g h
  expense_gain-IsRealized d lot m used none (some gain) b c g p h =
      let (cost, e, _) = p gain g in absurd (cc)

  match_gain-some :
      (proceeds cost : Option D) (gain : D)
      → match_gain py proceeds cost ≡ some gain
      → (x : D) × (cost ≡ some x)
  unfolding match_gain
  match_gain-some (some p) (some x) gain h = (x, refl)
  match_gain-some (some p) none gain h = absurd (cc)
  match_gain-some none cost gain h = absurd (cc)

  sale_book-IsRealized :
      (details : Details) (d : Disposal D) (lot : Lot D) (used : ℕ) (b : Books D)
      → IsRealized py b.totals
      → IsRealized py (sale_book py details d lot used b).totals
  unfolding sale_book sale_match IsPriced add_class
  sale_book-IsRealized details d lot used b h =
      let holding = details lot.timestamp d.timestamp (pos d.threshold) in
      let m = sale_match py d holding lot used in
      sale_gain-IsRealized d m used m.cost_basis m.realized_gain _ refl refl
        (λ gain g.
          let (cost, e) = match_gain-some (some (net_proceeds py d used)) m.cost_basis gain g in
          (cost, e, match_cost-currency d lot used cost e))
        h

  expense_book-IsRealized :
      (details : Details) (d : Disposal D) (lot : Lot D) (used : ℕ) (b : Books D)
      → IsRealized py b.totals
      → IsRealized py (expense_book py details d lot used b).totals
  unfolding expense_book expense_match IsPriced add_class
  expense_book-IsRealized details d lot used b h =
      let holding = details lot.timestamp d.timestamp (pos d.threshold) in
      let m = expense_match py d holding lot used in
      expense_gain-IsRealized d lot m used m.cost_basis m.realized_gain _ refl refl
        (λ gain g.
          let (cost, e) = match_gain-some m.net_proceeds m.cost_basis gain g in
          (cost, e, match_cost-currency d lot used cost e))
        h

  add_oversold-IsRealized :
      (n : ℕ) (m : Match D) (b : Books D)
      → m.realized_gain ≡ none
      → IsRealized py b.totals
      → IsRealized py (add_oversold n m b).totals
  unfolding add_oversold add_match
  add_oversold-IsRealized n m b e h = elim (Bool-cases (ltb 0 n)) [
    | inl more ↦ rw more (add_match-unresolved py m b e h)
    | inr all ↦ rw all h
  ]

  pub sale_books-IsRealized :
      (details : Details) (d : Disposal D) (depot : DepotLots D) (t : Totals D)
      → IsRealized py t
      → IsRealized py (sale_books py details d depot t).books.totals
  unfolding sale_books use_lots sale_opening sale_oversold_match
  sale_books-IsRealized details d depot t h =
      let s = use_lots (sale_book py details d) d.amount depot (sale_opening py d t) in
      add_oversold-IsRealized s.remaining (sale_oversold_match py d s.remaining) s.books refl (
        drain-books (sale_book py details d) (λ r b. IsRealized py b.totals)
          (λ lot used r b some_used within. sale_book-IsRealized details d lot used b)
          (record {
            lots = depot.lots;
            cursor = depot.cursor;
            remaining = d.amount;
            books = sale_opening py d t;
          })
          h)

  pub expense_books-IsRealized :
      (details : Details) (id : String) (d : Disposal D) (depot : DepotLots D) (t : Totals D)
      → IsRealized py t
      → IsRealized py (expense_books py details id d depot t).books.totals
  unfolding expense_books use_lots expense_opening expense_oversold_match
  expense_books-IsRealized details id d depot t h =
      let s = use_lots (expense_book py details d) d.amount depot (expense_opening py id d t) in
      add_oversold-IsRealized s.remaining (expense_oversold_match py d s.remaining) s.books refl (
        drain-books (expense_book py details d) (λ r b. IsRealized py b.totals)
          (λ lot used r b some_used within. expense_book-IsRealized details d lot used b)
          (record {
            lots = depot.lots;
            cursor = depot.cursor;
            remaining = d.amount;
            books = expense_opening py id d t;
          })
          h)
