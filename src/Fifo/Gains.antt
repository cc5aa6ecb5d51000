-- ===== src/Fifo/Gains.antt =====
-- The realized gains by currency are the gains of the resolved matches, added in their order.
pub mod Matches
pub mod Result
use bitcoin_stack_tracker.Common.{
  ℕ, ◌≡◌, refl, Bool, true, false, Option, none, some, String, List, [], ◌∷◌, ◌++◌, if◌then◌else◌,
  arith, nat_eq, inl, inr, Bool-cases, Option-cases, ◌==◌, texts, eq_iff, ltb, ◌&&◌,
}
use bitcoin_stack_tracker.Common.Dict.{Dict, get_or, lookup-insert}
use bitcoin_stack_tracker.Common.Int.{ℤ, pos}
use bitcoin_stack_tracker.Ledger.{
  Kind, purchase, income, stack, sale, expense, network_fee, other, Entry, Python, clipped_sats,
  depot_of, Datetime,
}
use bitcoin_stack_tracker.Fifo.Types.{
  Lot, Match, Totals, DepotLots, Fifo, HoldingStatus, unknown, long_term, short_term, mixed,
}
use bitcoin_stack_tracker.Fifo.Drain.{Drain}
use bitcoin_stack_tracker.Fifo.Drain.Loop.{drain-books}
use bitcoin_stack_tracker.Fifo.Books.{
  Details, Books, add_to, add_class, add_gain, add_match, add_oversold,
}
use bitcoin_stack_tracker.Fifo.Sale.{
  Disposal, same_currency, match_cost, match_gain, net_proceeds, sale_of, sale_match, sale_gain,
  sale_book, sale_opening, sale_books, sale_oversold_match, use_lots,
}
use bitcoin_stack_tracker.Fifo.Expense.{
  expense_of, expense_match, expense_gain, expense_book, expense_opening, expense_books,
  expense_oversold_match,
}
use bitcoin_stack_tracker.Fifo.Rows.{
  no_lots, no_totals, sale_totals, expense_totals, row_step, fifo_step, fifo_rows, filtered,
}
use bitcoin_stack_tracker.Fifo.Result.{is_long_term, is_short_term, fifo_result}
use bitcoin_stack_tracker.Fifo.Holding.{threshold_days}

abbrev pub any_class : HoldingStatus → Bool
any_class s = true

-- The match counts for the currency: its lot was bought in it, and its class is selected.
abbrev pub counts_for : {D : Type 0} → (HoldingStatus → Bool) → String → Match D → Bool
counts_for select currency m =
    select m.holding.holding_status
    && elim m.purchase_currency [ none ↦ false | some c ↦ c == currency ]

module _ {D : Type 0} (py : Python D) (select : HoldingStatus → Bool) (currency : String) where
  -- The gain so far, and one more match.
  abbrev pub plus_gain : D → Match D → D
  plus_gain sum m = elim m.realized_gain [
    | none ↦ sum
    | some gain ↦ if counts_for select currency m then py.plus sum gain else sum
  ]

  abbrev pub gains_from : D → List (Match D) → D
  gains_from sum [] = sum
  gains_from sum (m ∷ ms) = gains_from (plus_gain sum m) ms

  gains_from-snoc :
      (sum : D) (ms : List (Match D)) (m : Match D)
      → gains_from sum (ms ++ m ∷ []) ≡ plus_gain (gains_from sum ms) m
  gains_from-snoc sum [] m = refl
  gains_from-snoc sum (k ∷ ms) m = gains_from-snoc (plus_gain sum k) ms m

-- The sum of the gains of the resolved matches of a currency and a class, in their order.
abbrev pub gains : {D : Type 0} → Python D → (HoldingStatus → Bool) → String → List (Match D) → D
gains py select currency ms = gains_from py select currency py.nought ms

-- A dict of the totals holds these sums.
abbrev pub HoldsGains :
    {D : Type 0} → Python D → (HoldingStatus → Bool) → Dict String D → List (Match D) → Type 0
HoldsGains py select d ms = (c : String) → get_or c py.nought d ≡ gains py select c ms

-- The three dicts of the totals hold the sums of their classes.
abbrev pub IsRealized : {D : Type 0} → Python D → Totals D → Type 0
IsRealized py t =
    HoldsGains py any_class t.realized t.matches
    × HoldsGains py is_long_term t.realized_long_term t.matches
    × HoldsGains py is_short_term t.realized_short_term t.matches

module _ {D : Type 0} (py : Python D) where
  get_or-add_to :
      (c currency : String) (x : D) (d : Dict String D)
      → get_or c py.nought (add_to py currency x d)
        ≡ (if currency == c then py.plus (get_or c py.nought d) x else get_or c py.nought d)
  unfolding add_to
  get_or-add_to c currency x d = elim (Bool-cases (currency == c)) [
    | inl e ↦ rw (
      lookup-insert currency c (py.plus (get_or currency py.nought d) x) d,
      e,
      (eq_iff currency c).0 e,
    )
    | inr e ↦ rw (lookup-insert currency c (py.plus (get_or currency py.nought d) x) d, e)
  ]

  -- A match without a gain adds nothing.
  pub add_match-unresolved :
      (m : Match D) (b : Books D)
      → m.realized_gain ≡ none
      → IsRealized py b.totals
      → IsRealized py (add_match m b).totals
  unfolding add_match
  add_match-unresolved m b e (all, long, short) = (
    λ c. rw (gains_from-snoc py any_class c py.nought b.totals.matches m, e) (all c),
    λ c. rw (gains_from-snoc py is_long_term c py.nought b.totals.matches m, e) (long c),
    λ c. rw (gains_from-snoc py is_short_term c py.nought b.totals.matches m, e) (short c),
  )

  module _ (m : Match D) (currency : String) (gain : D) (g : m.realized_gain ≡ some gain)
      (p : m.purchase_currency ≡ some currency) where
    -- One sum, when the match counts in its class.
    counted :
        (select : HoldingStatus → Bool) (c : String) (d : Dict String D) (ms : List (Match D))
        → select m.holding.holding_status ≡ true
        → get_or c py.nought d ≡ gains py select c ms
        → get_or c py.nought (add_to py currency gain d) ≡ gains py select c (ms ++ m ∷ [])
    counted select c d ms s h =
        rw (gains_from-snoc py select c py.nought ms m, get_or-add_to c currency gain d, g, p, s, h)

    not_counted :
        (select : HoldingStatus → Bool) (c : String) (d : Dict String D) (ms : List (Match D))
        → select m.holding.holding_status ≡ false
        → get_or c py.nought d ≡ gains py select c ms
        → get_or c py.nought d ≡ gains py select c (ms ++ m ∷ [])
    not_counted select c d ms s h = rw (gains_from-snoc py select c py.nought ms m, g, p, s) h

    pub add_gain-IsRealized :
        (class : HoldingStatus) (used : ℕ) (cost : D) (b : Books D)
        → m.holding.holding_status ≡ class
        → IsRealized py b.totals
        → IsRealized py (add_match m (add_gain py class currency used cost gain b)).totals
    unfolding add_match add_gain
    add_gain-IsRealized unknown used cost b e (all, long, short) = (
      λ c. counted any_class c b.totals.realized b.totals.matches refl (all c),
      λ c. not_counted is_long_term c b.totals.realized_long_term b.totals.matches (rw e) (long c),
      λ c.
          not_counted is_short_term c b.totals.realized_short_term b.totals.matches (rw e)
            (short c),
    )
    add_gain-IsRealized long_term used cost b e (all, long, short) = (
      λ c. counted any_class c b.totals.realized b.totals.matches refl (all c),
      λ c. counted is_long_term c b.totals.realized_long_term b.totals.matches (rw e) (long c),
      λ c.
          not_counted is_short_term c b.totals.realized_short_term b.totals.matches (rw e)
            (short c),
    )
    add_gain-IsRealized short_term used cost b e (all, long, short) = (
      λ c. counted any_class c b.totals.realized b.totals.matches refl (all c),
      λ c. not_counted is_long_term c b.totals.realized_long_term b.totals.matches (rw e) (long c),
      λ c. counted is_short_term c b.totals.realized_short_term b.totals.matches (rw e) (short c),
    )
    add_gain-IsRealized mixed used cost b e (all, long, short) = (
      λ c. counted any_class c b.totals.realized b.totals.matches refl (all c),
      λ c. not_counted is_long_term c b.totals.realized_long_term b.totals.matches (rw e) (long c),
      λ c.
          not_counted is_short_term c b.totals.realized_short_term b.totals.matches (rw e)
            (short c),
    )
