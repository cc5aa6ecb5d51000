-- ===== src/Store/Limits/Rows.antt =====
-- The calls that change rows keep the limits.
use bitcoin_stack_tracker.Common.{
  ◌+◌, ◌≤◌, ◌∙◌, true, Option, none, some, String, List, [], ◌∷◌, ◌++◌, length, length-append, not,
  ◌==◌, texts, inl, inr, Bool-cases, Option-cases, arith, leb, ltb, set, get_elem?,
}
use bitcoin_stack_tracker.Ledger.{Python, Datetime}
use bitcoin_stack_tracker.Ledger.Order.{sorted}
use bitcoin_stack_tracker.Fifo.Books.{Details}
use bitcoin_stack_tracker.Store.Data.{Texts, Row, Store, max_ledger_entries}
use bitcoin_stack_tracker.Store.Rows.{row_le, sorted_rows}
use bitcoin_stack_tracker.Store.Changes.{
  rows_without, index_of, append_row, add_row, delete_row, delete_all_rows, updated_row, update_row,
  has_depot,
}
use bitcoin_stack_tracker.Store.Import.{RawRow, seen_of, import_loop, bulk_import}
use bitcoin_stack_tracker.Store.Guard.{
  RowCall, adds, deletes, updates, clears, imports, after_row_call,
}
use bitcoin_stack_tracker.Store.Limits.{
  IsLimited, length-sorted, length-keep, length-set, change_rows-IsLimited, fits, cleared,
  saved-IsLimited, limited_if,
}

module _ {D : Type 0} (py : Python D) (tx : Texts D) (details : Details) where
  append_row-IsLimited :
      (now : Datetime) (r : Row D) (s : Store D)
      → IsLimited s.ledger
      → IsLimited (append_row py tx details now r s).1.ledger
  unfolding append_row sorted_rows
  append_row-IsLimited now r s l =
      limited_if s.locked _ _ (λ e. l)
        (λ e.
          limited_if (leb max_ledger_entries (length s.ledger.entries)) _ _ (λ f. l)
            (λ f.
              change_rows-IsLimited py tx details now
                (sorted_rows py tx (s.ledger.entries ++ r ∷ [])) s
                (ground (
                  arith,
                  f,
                  length-sorted (row_le py tx) (s.ledger.entries ++ r ∷ []),
                  length-append s.ledger.entries (r ∷ []),
                ))
                l))

  add_row-IsLimited :
      (now : Datetime) (depot_id : String) (row : Option (Row D)) (s : Store D)
      → IsLimited s.ledger
      → IsLimited (add_row py tx details now depot_id row s).1.ledger
  unfolding add_row has_depot
  add_row-IsLimited now depot_id none s l = ground (arith, l)
  add_row-IsLimited now depot_id (some r) s l = ground (arith, l, append_row-IsLimited now r s l)

  delete_row-IsLimited :
      (now : Datetime) (item_id : String) (s : Store D)
      → IsLimited s.ledger
      → IsLimited (delete_row py tx details now item_id s).1.ledger
  unfolding delete_row rows_without IsLimited
  delete_row-IsLimited now item_id s l =
      let fewer = length-keep (λ r. not (r.entry.id == item_id)) s.ledger.entries in
      ground (
        arith,
        l,
        change_rows-IsLimited py tx details now (rows_without item_id s.ledger.entries) s
            (omega (arith, fewer, l.0)) l,
      )

  update_row-IsLimited :
      (now : Datetime) (item_id : String) (new : Row D) (fee_btc : Option D) (s : Store D)
      → IsLimited s.ledger
      → IsLimited (update_row py tx details now item_id new fee_btc s).1.ledger
  unfolding update_row sorted_rows
  update_row-IsLimited now item_id new fee_btc s l =
      elim (Option-cases (index_of item_id s.ledger.entries)) [
        | inl e ↦ ground (arith, l, e)
        | inr (index, e) ↦ elim (Option-cases (get_elem? s.ledger.entries index)) [
          | inl g ↦ ground (arith, l, e, g)
          | inr (old, g) ↦ elim (Option-cases (updated_row py tx details now old new fee_btc)) [
            | inl u ↦ ground (arith, l, e, g, u)
            | inr (r, u) ↦
                let as_many = length-sorted (row_le py tx) (set s.ledger.entries index r) in
                let changed =
                  change_rows-IsLimited py tx details now
                    (sorted_rows py tx (set s.ledger.entries index r)) s
                    (fits s.ledger (as_many ∙ length-set s.ledger.entries index r) l) l in
                ground (arith, l, e, g, u, changed)
          ]
        ]
      ]

  delete_all_rows-IsLimited :
      (now : Datetime) (s : Store D)
      → IsLimited s.ledger
      → IsLimited (delete_all_rows py tx details now s).1.ledger
  unfolding delete_all_rows
  delete_all_rows-IsLimited now s l =
      let s' : Store D = record s {
        ledger = record s.ledger { entries = []; chart_revision = none };
      } in
      ground (arith, l, saved-IsLimited py tx details now true s' (cleared s.ledger l))

  bulk_import-IsLimited :
      (now : Datetime) (raws : List (RawRow D)) (s : Store D)
      → IsLimited s.ledger
      → IsLimited (bulk_import py tx details now raws s).1.ledger
  unfolding bulk_import sorted_rows
  bulk_import-IsLimited now raws s l =
      elim (Option-cases
        (import_loop py tx now s.ledger.depots (seen_of py tx s.ledger.entries) raws)) [
          | inl e ↦ ground (arith, e, l)
          | inr (([], n), e) ↦ ground (arith, e, l)
          | inr ((r ∷ rows, n), e) ↦
              elim (Bool-cases
                (ltb max_ledger_entries (length s.ledger.entries + length (r ∷ rows)))) [
                  | inl over ↦ ground (arith, e, over, l)
                  | inr room ↦
                      let all = s.ledger.entries ++ r ∷ rows in
                      let size : length (sorted (row_le py tx) all) ≤ max_ledger_entries = ground (
                        arith,
                        length-sorted (row_le py tx) all,
                        length-append s.ledger.entries (r ∷ rows),
                        room,
                      ) in
                      ground (
                        arith,
                        e,
                        room,
                        l,
                        change_rows-IsLimited py tx details now (sorted_rows py tx all) s size l,
                      )
                ]
        ]

  pub after_row_call-IsLimited :
      (call : RowCall D) (s : Store D)
      → IsLimited s.ledger
      → IsLimited (after_row_call py tx details call s).ledger
  unfolding after_row_call
  after_row_call-IsLimited (adds now depot_id row) s l = add_row-IsLimited now depot_id row s l
  after_row_call-IsLimited (deletes now item_id) s l = delete_row-IsLimited now item_id s l
  after_row_call-IsLimited (updates now item_id new fee_btc) s l =
      update_row-IsLimited now item_id new fee_btc s l
  after_row_call-IsLimited (clears now) s l = delete_all_rows-IsLimited now s l
  after_row_call-IsLimited (imports now raws) s l = bulk_import-IsLimited now raws s l
