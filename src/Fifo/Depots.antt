-- ===== src/Fifo/Depots.antt =====
-- FIFO is independent inside each depot: the lots of a depot after a run over all rows are those
-- after a run over the rows of that depot alone.
use bitcoin_stack_tracker.Common.{
  ℕ, ◌≡◌, refl, sym, ap, ◌∙◌, true, false, none, some, String, List, [], ◌∷◌, nat_eq, inl, inr,
  Bool-cases, ◌==◌, texts, eq_iff, keep,
}
use bitcoin_stack_tracker.Common.Dict.{get_or, lookup-insert}
use bitcoin_stack_tracker.Ledger.{
  Kind, purchase, income, stack, sale, expense, network_fee, other, Entry, Python, clipped_sats,
  depot_of,
}
use bitcoin_stack_tracker.Ledger.Order.{sorted_entries}
use bitcoin_stack_tracker.Fifo.Types.{Lot, Totals, DepotLots, Fifo}
use bitcoin_stack_tracker.Fifo.Expand.{entries_with_btc_fee_disposals}
use bitcoin_stack_tracker.Fifo.Drain.{drain}
use bitcoin_stack_tracker.Fifo.Drain.Erase.{no_books, erase-drain}
use bitcoin_stack_tracker.Fifo.Books.{Details, Books}
use bitcoin_stack_tracker.Fifo.Sale.{sale_of, sale_book, sale_opening, sale_books, use_lots}
use bitcoin_stack_tracker.Fifo.Expense.{expense_of, expense_book, expense_opening, expense_books}
use bitcoin_stack_tracker.Fifo.Rows.{
  no_lots, no_totals, left_by, row_step, fifo_step, fifo_rows, in_depot, filtered,
}

keep-all : {D : Type 0} (es : List (Entry D)) → keep (in_depot none) es ≡ es
unfolding in_depot
keep-all [] = refl
keep-all (e ∷ es) = ap (λ xs. e ∷ xs) (keep-all es)

-- The lots and the cursor that a disposal of `amount` leaves.
left_of : {D : Type 0} → ℕ → DepotLots D → DepotLots D
left_of amount depot =
    let s =
      drain no_books
        (record { lots = depot.lots; cursor = depot.cursor; remaining = amount; books = tt }) in
    record { lots = s.lots; cursor = s.cursor }

use_lots-left_of :
    {D : Type 0} (book : Lot D → ℕ → Books D → Books D) (amount : ℕ) (depot : DepotLots D)
    (b : Books D)
    → let s = use_lots book amount depot b in
      ◌≡◌ {A = DepotLots D} (record { lots = s.lots; cursor = s.cursor }) (left_of amount depot)
unfolding use_lots left_of
use_lots-left_of book amount depot b =
    let e =
      erase-drain book
        (record { lots = depot.lots; cursor = depot.cursor; remaining = amount; books = b }) in
    λ i. record { lots = (e i).lots; cursor = (e i).cursor }

module _ {D : Type 0} (py : Python D) (details : Details) (threshold : ℕ) where
  -- What a row does to the lots of its depot does not depend on the totals.
  row_step-lots :
      (k : Kind) (e : Entry D) (depot : DepotLots D) (t u : Totals D)
      → (row_step py details threshold k e depot t).0
        ≡ (row_step py details threshold k e depot u).0
  unfolding row_step left_by sale_books expense_books
  row_step-lots purchase e depot t u = refl
  row_step-lots income e depot t u = refl
  row_step-lots stack e depot t u = refl
  row_step-lots sale e depot t u =
      let d = sale_of py threshold e in
      let book = sale_book py details d in
      use_lots-left_of book d.amount depot (sale_opening py d t)
      ∙ sym (use_lots-left_of book d.amount depot (sale_opening py d u))
  row_step-lots expense e depot t u =
      let d = expense_of py threshold e in
      let book = expense_book py details d in
      use_lots-left_of book d.amount depot (expense_opening py e.id d t)
      ∙ sym (use_lots-left_of book d.amount depot (expense_opening py e.id d u))
  row_step-lots network_fee e depot t u = refl
  row_step-lots other e depot t u = refl

  -- A row of another depot leaves the depot alone.
  fifo_step-other :
      (name : String) (f : Fifo D) (e : Entry D)
      → (depot_of e == name) ≡ false
      → get_or name no_lots (fifo_step py details threshold f e).depots
        ≡ get_or name no_lots f.depots
  unfolding fifo_step
  fifo_step-other name f e h = elim (Bool-cases (nat_eq (clipped_sats e.amount_btc) 0)) [
    | inl skipped ↦ rw skipped
    | inr taken ↦
        let depot = get_or (depot_of e) no_lots f.depots in
        let depot' = (row_step py details threshold e.kind e depot f.totals).0 in
        rw (taken, lookup-insert (depot_of e) name depot' f.depots, h)
  ]

  -- A row of the depot does the same to it in two runs that agree on it.
  fifo_step-same :
      (name : String) (f g : Fifo D) (e : Entry D)
      → (depot_of e == name) ≡ true
      → get_or name no_lots f.depots ≡ get_or name no_lots g.depots
      → get_or name no_lots (fifo_step py details threshold f e).depots
        ≡ get_or name no_lots (fifo_step py details threshold g e).depots
  unfolding fifo_step
  fifo_step-same name f g e h agree = elim (Bool-cases (nat_eq (clipped_sats e.amount_btc) 0)) [
    | inl skipped ↦ rw skipped agree
    | inr taken ↦
        let at = λ (k : String) (x : Fifo D).
          (row_step py details threshold e.kind e (get_or k no_lots x.depots) x.totals).0 in
        rw
          (
            taken,
            lookup-insert (depot_of e) name (at (depot_of e) f) f.depots,
            lookup-insert (depot_of e) name (at (depot_of e) g) g.depots,
            h,
            (eq_iff (depot_of e) name).0 h,
            agree,
          )
          (row_step-lots e.kind e (get_or name no_lots g.depots) f.totals g.totals)
  ]

  fifo_rows-same :
      (name : String) (f g : Fifo D) (es : List (Entry D))
      → get_or name no_lots f.depots ≡ get_or name no_lots g.depots
      → get_or name no_lots (fifo_rows py details threshold f es).depots
        ≡ get_or name no_lots
            (fifo_rows py details threshold g (keep (in_depot (some name)) es)).depots
  unfolding fifo_rows in_depot
  fifo_rows-same name f g [] agree = agree
  fifo_rows-same name f g (e ∷ es) agree = elim (Bool-cases (depot_of e == name)) [
    | inl here ↦ rw here (
        fifo_rows-same name (fifo_step py details threshold f e)
          (fifo_step py details threshold g e) es (fifo_step-same name f g e here agree))
    | inr there ↦ rw there (
        fifo_rows-same name (fifo_step py details threshold f e) g es
          (fifo_step-other name f e there ∙ agree))
  ]

-- The lots of a depot after the run over all rows of the ledger are those after the run over the
-- rows of that depot alone: no row of another depot touches them.
pub fifo_rows-filtered :
    {D : Type 0} (py : Python D) (details : Details) (threshold : ℕ) (name : String)
    (entries : List (Entry D))
    → let start : Fifo D = record { depots = []; totals = no_totals } in
      get_or name no_lots (fifo_rows py details threshold start (filtered py none entries)).depots
      ≡ get_or name no_lots
          (fifo_rows py details threshold start (filtered py (some name) entries)).depots
unfolding filtered
fifo_rows-filtered py details threshold name entries =
    let start : Fifo _ = record { depots = []; totals = no_totals } in
    let rows = sorted_entries py (entries_with_btc_fee_disposals py entries) in
    rw (keep-all rows) (fifo_rows-same py details threshold name start start rows refl)
