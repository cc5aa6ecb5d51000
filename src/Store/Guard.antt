-- ===== src/Store/Guard.antt =====
-- No sequence of calls that change the rows makes a depot more oversold.
use bitcoin_stack_tracker.Common.{
  ◌≤◌, ◌≡◌, refl, sym, ap, ◌∙◌, true, false, Option, none, some, String, List, [], ◌∷◌, ◌++◌, ◌==◌,
  texts, Bool-cases, Option-cases, inl, inr, arith, set, get_elem?,
}
use bitcoin_stack_tracker.Common.Int.{ℤ}
use bitcoin_stack_tracker.Common.Dict.{lookup}
use bitcoin_stack_tracker.Ledger.{Python, Datetime}
use bitcoin_stack_tracker.Fifo.Books.{Details}
use bitcoin_stack_tracker.Fifo.Rows.{fifo_rows, filtered}
use bitcoin_stack_tracker.Security.State.{Result, ok, error}
use bitcoin_stack_tracker.Store.Data.{Texts, Row, LedgerData, FifoCache, Store, all_depots}
use bitcoin_stack_tracker.Store.Cache.{oversold_by_depot, validate_fifo_change}
use bitcoin_stack_tracker.Store.Rows.{sorted_rows}
use bitcoin_stack_tracker.Store.Save.{save_ledger, refresh_fifo_cache, sealing_error}
use bitcoin_stack_tracker.Store.Changes.{
  rows_without, index_of, has_depot, commit_rows, change_rows, append_row, add_row, delete_row,
  delete_all_rows, updated_row, update_row,
}
use bitcoin_stack_tracker.Store.Import.{RawRow, seen_of, import_loop, bulk_import}
use bitcoin_stack_tracker.Store.Oversell.{
  is_key, oversold_in, oversold_of, IsCurrent, validate-oversold, lookup-build,
}

-- A call that changes the rows, with its arguments; `adds` has the row that its arguments make.
pub data RowCall (D : Type 0) : Type 0 where
  adds : Datetime → String → Option (Row D) → RowCall D
  deletes : Datetime → String → RowCall D
  updates : Datetime → String → Row D → Option D → RowCall D
  clears : Datetime → RowCall D
  imports : Datetime → List (RawRow D) → RowCall D

module _ {D : Type 0} (py : Python D) (tx : Texts D) (details : Details) where
  unfoldable pub after_row_call : RowCall D → Store D → Store D
  unfolding add_row delete_row update_row delete_all_rows bulk_import
  after_row_call (adds now depot_id row) s = (add_row py tx details now depot_id row s).1
  after_row_call (deletes now item_id) s = (delete_row py tx details now item_id s).1
  after_row_call (updates now item_id new fee_btc) s =
      (update_row py tx details now item_id new fee_btc s).1
  after_row_call (clears now) s = (delete_all_rows py tx details now s).1
  after_row_call (imports now raws) s = (bulk_import py tx details now raws s).1

  unfoldable pub row_history : List (RowCall D) → Store D → Store D
  unfolding after_row_call
  row_history [] s = s
  row_history (c ∷ cs) s = row_history cs (after_row_call c s)

  -- The depots and settings are those of `s`, the summaries are current, and no depot is more
  -- oversold than in `s`.
  abbrev pub IsNoWorse : Store D → Store D → Type 0
  IsNoWorse s t =
      (t.ledger.depots ≡ s.ledger.depots)
      × (t.ledger.tax_settings ≡ s.ledger.tax_settings)
      × ((j : String)
          → is_key j s.ledger.depots ≡ true
          → (j == all_depots) ≡ false
          → (lookup j (oversold_by_depot t.fifo_cache) ≡ some (oversold_of py details t j))
            × (oversold_of py details t j ≤ oversold_of py details s j))

  IsNoWorse-refl : (s : Store D) → IsCurrent py details s → IsNoWorse s s
  unfolding IsCurrent oversold_of
  IsNoWorse-refl s c = (refl, refl, λ j k h. (c j k h, omega arith))

  IsNoWorse-IsCurrent : (s t : Store D) → IsNoWorse s t → IsCurrent py details t
  unfolding IsCurrent oversold_of
  IsNoWorse-IsCurrent s t (d, x, w) j k h = (w j (rw (sym d) k) h).0

  IsNoWorse-trans : (s t u : Store D) → IsNoWorse s t → IsNoWorse t u → IsNoWorse s u
  IsNoWorse-trans s t u (d, x, w) (d', x', w') = (
    d' ∙ d,
    x' ∙ x,
    λ j k h.
        let first = w j k h in
        let second = w' j (rw d k) h in (second.0, omega (arith, first.1, second.1)),
  )

  save_ledger-keeps :
      (now : Datetime) (s : Store D)
      → ((save_ledger py details now false s).1.ledger ≡ s.ledger)
        × ((save_ledger py details now false s).1.fifo_cache ≡ s.fifo_cache)
  unfolding save_ledger
  save_ledger-keeps now s = elim (Bool-cases s.locked) [
    | inl shut ↦ rw shut (refl, refl)
    | inr open_now ↦ elim (Option-cases (sealing_error s)) [
      | inl fine ↦ rw (open_now, fine) (refl, refl)
      | inr (e, fails) ↦ rw (open_now, fails) (refl, refl)
    ]
  ]

  -- A store whose ledger and summaries are these.
  IsNoWorse-of :
      (s t : Store D) (l : LedgerData D) (cache : FifoCache D)
      → t.ledger ≡ l
      → t.fifo_cache ≡ cache
      → l.depots ≡ s.ledger.depots
      → l.tax_settings ≡ s.ledger.tax_settings
      → ((j : String)
          → is_key j s.ledger.depots ≡ true
          → (j == all_depots) ≡ false
          → (lookup j (oversold_by_depot cache)
              ≡ some (oversold_in py details l.entries l.tax_settings.long_term_days j))
            × (oversold_in py details l.entries l.tax_settings.long_term_days j
                ≤ oversold_of py details s j))
      → IsNoWorse s t
  unfolding oversold_of
  IsNoWorse-of s t l cache el ec d x w =
      (ap (λ y. y.depots) el ∙ d, ap (λ y. y.tax_settings) el ∙ x, λ j k h. rw (el, ec) (w j k h))

  change_rows-IsNoWorse :
      (now : Datetime) (rows : List (Row D)) (s : Store D)
      → IsCurrent py details s
      → IsNoWorse s (change_rows py tx details now rows s).1
  unfolding change_rows commit_rows
  change_rows-IsNoWorse now rows s c =
      go (validate_fifo_change py details now s.ledger.entries rows s) refl
    where
      go :
          (v : Result (FifoCache D))
          → validate_fifo_change py details now s.ledger.entries rows s ≡ v
          → IsNoWorse s
              (elim v as (λ x. Result Unit × Store D) [
                | error e ↦ (error e, s)
                | ok cache ↦ commit_rows py tx details now rows cache s
              ]).1
      go (error e) same = IsNoWorse-refl s c
      go (ok cache) same =
          let s' : Store D = record s {
            ledger = record s.ledger { entries = rows; chart_revision = none };
            fifo_cache = cache;
          } in
          let (l, f) = save_ledger-keeps now s' in
          IsNoWorse-of s (save_ledger py details now false s').1 s'.ledger cache l f refl refl
            (λ j k h. validate-oversold py details now rows s cache j c same k h)

  append_row-IsNoWorse :
      (now : Datetime) (r : Row D) (s : Store D)
      → IsCurrent py details s
      → IsNoWorse s (append_row py tx details now r s).1
  unfolding append_row
  append_row-IsNoWorse now r s c = ground (
    arith,
    IsNoWorse-refl s c,
    change_rows-IsNoWorse now (sorted_rows py tx (s.ledger.entries ++ r ∷ [])) s c,
  )

  add_row-IsNoWorse :
      (now : Datetime) (depot_id : String) (row : Option (Row D)) (s : Store D)
      → IsCurrent py details s
      → IsNoWorse s (add_row py tx details now depot_id row s).1
  unfolding add_row has_depot
  add_row-IsNoWorse now depot_id none s c = ground (arith, IsNoWorse-refl s c)
  add_row-IsNoWorse now depot_id (some r) s c =
      ground (arith, IsNoWorse-refl s c, append_row-IsNoWorse now r s c)

  delete_row-IsNoWorse :
      (now : Datetime) (item_id : String) (s : Store D)
      → IsCurrent py details s
      → IsNoWorse s (delete_row py tx details now item_id s).1
  unfolding delete_row
  delete_row-IsNoWorse now item_id s c = ground (
    arith,
    IsNoWorse-refl s c,
    change_rows-IsNoWorse now (rows_without item_id s.ledger.entries) s c,
  )

  update_row-IsNoWorse :
      (now : Datetime) (item_id : String) (new : Row D) (fee_btc : Option D) (s : Store D)
      → IsCurrent py details s
      → IsNoWorse s (update_row py tx details now item_id new fee_btc s).1
  unfolding update_row
  update_row-IsNoWorse now item_id new fee_btc s c =
      let same = IsNoWorse-refl s c in
      elim (Option-cases (index_of item_id s.ledger.entries)) [
        | inl e ↦ ground (arith, same, e)
        | inr (index, e) ↦ elim (Option-cases (get_elem? s.ledger.entries index)) [
          | inl g ↦ ground (arith, same, e, g)
          | inr (old, g) ↦ elim (Option-cases (updated_row py tx details now old new fee_btc)) [
            | inl u ↦ ground (arith, same, e, g, u)
            | inr (r, u) ↦
                let changed =
                  change_rows-IsNoWorse now (sorted_rows py tx (set s.ledger.entries index r)) s
                    c in
                ground (arith, same, e, g, u, changed)
          ]
        ]
      ]

  oversold_in-nothing : (days : ℤ) (j : String) → oversold_in py details [] days j ≡ 0
  unfolding oversold_in filtered fifo_rows
  oversold_in-nothing days j = refl

  save_ledger-refresh :
      (now : Datetime) (s : Store D)
      → s.locked ≡ false
      → save_ledger py details now true s
        ≡ save_ledger py details now false (refresh_fifo_cache py details now s)
  unfolding save_ledger refresh_fifo_cache
  save_ledger-refresh now s e = rw e refl

  cleared-IsNoWorse :
      (now : Datetime) (s : Store D)
      → s.locked ≡ false
      → IsNoWorse s
          (save_ledger py details now true
            (record s { ledger = record s.ledger { entries = []; chart_revision = none } })).1
  unfolding refresh_fifo_cache
  cleared-IsNoWorse now s e =
      let s' : Store D = record s {
        ledger = record s.ledger { entries = []; chart_revision = none };
      } in
      let t = refresh_fifo_cache py details now s' in
      let days = s.ledger.tax_settings.long_term_days in
      let (l, f) = save_ledger-keeps now t in
      rw (save_ledger-refresh now s' e) (
        IsNoWorse-of s (save_ledger py details now false t).1 s'.ledger t.fifo_cache l f refl refl
          (λ j k h.
            let none_left = oversold_in-nothing days j in
            (lookup-build py details now [] s.ledger.depots days j k h, omega (arith, none_left))))

  delete_all_rows-IsNoWorse :
      (now : Datetime) (s : Store D)
      → IsCurrent py details s
      → IsNoWorse s (delete_all_rows py tx details now s).1
  unfolding delete_all_rows
  delete_all_rows-IsNoWorse now s c = ground (arith, IsNoWorse-refl s c, cleared-IsNoWorse now s)

  bulk_import-IsNoWorse :
      (now : Datetime) (raws : List (RawRow D)) (s : Store D)
      → IsCurrent py details s
      → IsNoWorse s (bulk_import py tx details now raws s).1
  unfolding bulk_import
  bulk_import-IsNoWorse now raws s c =
      let same = IsNoWorse-refl s c in
      elim (Option-cases
        (import_loop py tx now s.ledger.depots (seen_of py tx s.ledger.entries) raws)) [
          | inl e ↦ ground (arith, e, same)
          | inr (([], n), e) ↦ ground (arith, e, same)
          | inr ((r ∷ rows, n), e) ↦ ground (
            arith,
            e,
            same,
            change_rows-IsNoWorse now (sorted_rows py tx (s.ledger.entries ++ r ∷ rows)) s c,
          )
        ]

  after_row_call-IsNoWorse :
      (call : RowCall D) (s : Store D)
      → IsCurrent py details s
      → IsNoWorse s (after_row_call call s)
  unfolding after_row_call
  after_row_call-IsNoWorse (adds now depot_id row) s c = add_row-IsNoWorse now depot_id row s c
  after_row_call-IsNoWorse (deletes now item_id) s c = delete_row-IsNoWorse now item_id s c
  after_row_call-IsNoWorse (updates now item_id new fee_btc) s c =
      update_row-IsNoWorse now item_id new fee_btc s c
  after_row_call-IsNoWorse (clears now) s c = delete_all_rows-IsNoWorse now s c
  after_row_call-IsNoWorse (imports now raws) s c = bulk_import-IsNoWorse now raws s c

  -- Whatever rows are added, imported, changed and deleted, in any order, and whichever of these calls fail:
  -- of every depot of the store but one of the id "all", no more BTC is oversold afterwards than
  -- before, and the summaries in memory show how much, if they did so at first.
  pub row_history-IsNoWorse :
      (cs : List (RowCall D)) (s : Store D)
      → IsCurrent py details s
      → IsNoWorse s (row_history cs s)
  unfolding row_history
  row_history-IsNoWorse [] s c = IsNoWorse-refl s c
  row_history-IsNoWorse (call ∷ cs) s c =
      let first = after_row_call-IsNoWorse call s c in
      let t = after_row_call call s in
      IsNoWorse-trans s t (row_history cs t) first
        (row_history-IsNoWorse cs t (IsNoWorse-IsCurrent s t first))
