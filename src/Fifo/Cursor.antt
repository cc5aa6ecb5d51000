-- ===== src/Fifo/Cursor.antt =====
-- The cursor of a depot never passes a lot that holds BTC, so every disposal of a run is first in,
-- first out over all lots of its depot, and is oversold only when the depot is empty.
use bitcoin_stack_tracker.Common.{
  ℕ, ◌≡◌, Bool, true, false, String, List, [], ◌∷◌, ◌++◌, arith, nat_eq, inl, inr, ◌⊎◌, Bool-cases,
  ◌==◌, texts, All, All-append, length,
}
use bitcoin_stack_tracker.Common.Dict.{Dict, get_or, insert}
use bitcoin_stack_tracker.Ledger.{
  Kind, purchase, income, stack, sale, expense, network_fee, other, Entry, Python, clipped_sats,
  depot_of,
}
use bitcoin_stack_tracker.Fifo.Types.{Lot, Totals, DepotLots, Fifo}
use bitcoin_stack_tracker.Fifo.Drain.{drain}
use bitcoin_stack_tracker.Fifo.Drain.Loop.{held}
use bitcoin_stack_tracker.Fifo.Drain.Cursor.{
  IsWithin, IsReady, IsEmptied-append, IsEmptied-split, drain-IsReady, drain-exhausts,
}
use bitcoin_stack_tracker.Fifo.Drain.Reference.{take_fifo, drain_refines_fifo}
use bitcoin_stack_tracker.Fifo.Books.{Details, Books}
use bitcoin_stack_tracker.Fifo.Sale.{sale_of, sale_book, sale_opening, sale_books, use_lots}
use bitcoin_stack_tracker.Fifo.Expense.{expense_of, expense_book, expense_opening, expense_books}
use bitcoin_stack_tracker.Fifo.Rows.{
  no_lots, no_totals, lot_of, add_lot, left_by, row_step, fifo_step, fifo_rows,
}

abbrev pub DepotReady : {D : Type 0} → DepotLots D → Type 0
DepotReady depot = IsReady depot.lots depot.cursor

abbrev pub AllReady : {D : Type 0} → Dict String (DepotLots D) → Type 0
AllReady depots = All (λ e. DepotReady e.1) depots

module _ {D : Type 0} (book : Lot D → ℕ → Books D → Books D) (amount : ℕ) (b : Books D) where
  -- The same, for the lots and the cursor apart.
  drain-take_fifo :
      (done rest lots : List (Lot D)) (cursor : ℕ)
      → lots ≡ done ++ rest
      → cursor ≡ length done
      → held done ≡ 0
      → let s =
          drain book (record { lots = lots; cursor = cursor; remaining = amount; books = b }) in
        (s.lots, s.remaining, s.books) ≡ take_fifo book lots amount b
  drain-take_fifo done rest lots cursor p q e =
      rw (p, q) (drain_refines_fifo book done rest amount b e)

  module _ (depot : DepotLots D) (h : DepotReady depot) where
    use_lots-take_fifo :
        let s = use_lots book amount depot b in
        (s.lots, s.remaining, s.books) ≡ take_fifo book depot.lots amount b
    unfolding use_lots
    use_lots-take_fifo =
        let (done, rest, p, q, e) = IsEmptied-split depot.cursor depot.lots h.emptied in
        drain-take_fifo done rest depot.lots depot.cursor p q e

    use_lots-exhausts :
        let s = use_lots book amount depot b in (s.remaining ≡ 0) ⊎ (held s.lots ≡ 0)
    unfolding use_lots
    use_lots-exhausts =
        drain-exhausts book
          (record { lots = depot.lots; cursor = depot.cursor; remaining = amount; books = b }) h

    use_lots-IsReady :
        IsReady (use_lots book amount depot b).lots (use_lots book amount depot b).cursor
    unfolding use_lots
    use_lots-IsReady =
        drain-IsReady book
          (record { lots = depot.lots; cursor = depot.cursor; remaining = amount; books = b }) h

module _ {D : Type 0} (py : Python D) (details : Details) (threshold : ℕ) where
  add_lot-DepotReady :
      (priced : Bool) (e : Entry D) (depot : DepotLots D)
      → DepotReady depot
      → DepotReady (add_lot py (lot_of py priced e) depot)
  unfolding add_lot lot_of
  add_lot-DepotReady priced e depot h = record {
    emptied = IsEmptied-append depot.cursor depot.lots (lot_of py priced e ∷ []) h.emptied;
    within = All-append IsWithin depot.lots (lot_of py priced e ∷ []) h.within (omega arith);
  }

  row_step-DepotReady :
      (k : Kind) (e : Entry D) (depot : DepotLots D) (t : Totals D)
      → DepotReady depot
      → DepotReady (row_step py details threshold k e depot t).0
  unfolding row_step left_by sale_books expense_books
  row_step-DepotReady purchase e depot t h = add_lot-DepotReady true e depot h
  row_step-DepotReady income e depot t h = add_lot-DepotReady true e depot h
  row_step-DepotReady stack e depot t h = add_lot-DepotReady false e depot h
  row_step-DepotReady sale e depot t h =
      let d = sale_of py threshold e in
      use_lots-IsReady (sale_book py details d) d.amount (sale_opening py d t) depot h
  row_step-DepotReady expense e depot t h =
      let d = expense_of py threshold e in
      use_lots-IsReady (expense_book py details d) d.amount (expense_opening py e.id d t) depot h
  row_step-DepotReady network_fee e depot t h = h
  row_step-DepotReady other e depot t h = h

get_or-DepotReady :
    {D : Type 0} (name : String) (depots : Dict String (DepotLots D))
    → AllReady depots
    → DepotReady (get_or name no_lots depots)
get_or-DepotReady name [] h = record { emptied = tt; within = tt }
get_or-DepotReady name ((j, depot) ∷ depots) h = elim (Bool-cases (j == name)) [
  | inl e ↦ rw e h.0
  | inr e ↦ rw e (get_or-DepotReady name depots h.1)
]

insert-AllReady :
    {D : Type 0} (name : String) (depot : DepotLots D) (depots : Dict String (DepotLots D))
    → DepotReady depot
    → AllReady depots
    → AllReady (insert name depot depots)
insert-AllReady name depot [] r h = (r, tt)
insert-AllReady name depot ((j, old) ∷ depots) r h = elim (Bool-cases (j == name)) [
  | inl e ↦ rw e (r, h.1)
  | inr e ↦ rw e (h.0, insert-AllReady name depot depots r h.1)
]

module _ {D : Type 0} (py : Python D) (details : Details) (threshold : ℕ) where
  fifo_step-AllReady :
      (f : Fifo D) (e : Entry D)
      → AllReady f.depots
      → AllReady (fifo_step py details threshold f e).depots
  unfolding fifo_step
  fifo_step-AllReady f e h =
      let depot = get_or (depot_of e) no_lots f.depots in
      elim (Bool-cases (nat_eq (clipped_sats e.amount_btc) 0)) [
        | inl skipped ↦ rw skipped h
        | inr taken ↦ rw taken (
            insert-AllReady (depot_of e) (row_step py details threshold e.kind e depot f.totals).0
              f.depots
              (row_step-DepotReady py details threshold e.kind e depot f.totals
                (get_or-DepotReady (depot_of e) f.depots h))
              h)
      ]

  pub fifo_rows-AllReady :
      (f : Fifo D) (es : List (Entry D))
      → AllReady f.depots
      → AllReady (fifo_rows py details threshold f es).depots
  unfolding fifo_rows
  fifo_rows-AllReady f [] h = h
  fifo_rows-AllReady f (e ∷ es) h =
      fifo_rows-AllReady (fifo_step py details threshold f e) es (fifo_step-AllReady f e h)

-- After any rows, a disposal of any amount from any depot takes BTC first in, first out over all
-- lots of that depot, writing the same books; and it comes short only if no lot of the depot holds
-- anything any more.
pub fifo_rows-take_fifo :
    {D : Type 0} (py : Python D) (details : Details) (threshold : ℕ) (es : List (Entry D))
    (name : String) (book : Lot D → ℕ → Books D → Books D) (amount : ℕ) (b : Books D)
    → let f = fifo_rows py details threshold (record { depots = []; totals = no_totals }) es in
      let depot = get_or name no_lots f.depots in
      let s = use_lots book amount depot b in
      ((s.lots, s.remaining, s.books) ≡ take_fifo book depot.lots amount b)
      × ((s.remaining ≡ 0) ⊎ (held s.lots ≡ 0))
fifo_rows-take_fifo py details threshold es name book amount b =
    let f = fifo_rows py details threshold (record { depots = []; totals = no_totals }) es in
    let depot = get_or name no_lots f.depots in
    let ready = get_or-DepotReady name f.depots (
      fifo_rows-AllReady py details threshold (record { depots = []; totals = no_totals }) es tt) in
    (use_lots-take_fifo book amount b depot ready, use_lots-exhausts book amount b depot ready)
