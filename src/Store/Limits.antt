-- ===== src/Store/Limits.antt =====
-- The limits of the ledger: of its rows, depots and goals, and on the depots' ids.
pub mod Rows
pub mod Depots
pub mod History
use bitcoin_stack_tracker.Common.{
  ℕ, zero, suc, ◌+◌, ◌≤◌, ◌<◌, ◌≡◌, refl, sym, ◌∙◌, ap, Bool, true, false, Option, none, some,
  String, List, [], ◌∷◌, ◌++◌, if◌then◌else◌, length, length-append, not, ◌==◌, texts, inl, inr,
  Bool-cases, Option-cases, arith, eq_iff, eq_refl, nat_eq, keep, leb, ltb, set, get_elem?, ◌||◌,
  ◌&&◌,
}
use bitcoin_stack_tracker.Common.Int.{ℤ, pos, ltb_ℤ}
use bitcoin_stack_tracker.Common.Set.{is_in}
use bitcoin_stack_tracker.Ledger.{Python, Datetime, is_text}
use bitcoin_stack_tracker.Ledger.Order.{put, sorted}
use bitcoin_stack_tracker.Ledger.Slug.{slugify}
use bitcoin_stack_tracker.Fifo.Books.{Details}
use bitcoin_stack_tracker.Security.State.{Result, ok, error, Error, is_password}
use bitcoin_stack_tracker.Store.Data.{
  Texts, Row, Depot, Goal, LedgerData, FifoCache, Store, max_depots, max_goals, max_ledger_entries,
  default_depot_id,
}
use bitcoin_stack_tracker.Store.Rows.{row_le, sorted_rows}
use bitcoin_stack_tracker.Store.Cache.{validate_fifo_change}
use bitcoin_stack_tracker.Store.Save.{
  save_ledger, sealing_error, refresh_fifo_cache, lock_store, empty_data,
}
use bitcoin_stack_tracker.Store.Changes.{
  any_depot, rows_without, index_of, commit_rows, change_rows, append_row, add_row, delete_row,
  delete_all_rows, updated_row, update_row, has_depot,
}
use bitcoin_stack_tracker.Store.Import.{RawRow, seen_of, import_loop, bulk_import}
use bitcoin_stack_tracker.Store.Guard.{
  RowCall, adds, deletes, updates, clears, imports, after_row_call,
}
use bitcoin_stack_tracker.Store.Depots.{
  depot_ids, free_depot_id, save_change, add_depot, delete_depot, add_goal, delete_goal,
  updated_goal, change_goal, update_goal, set_tax_settings, free_loop, depot_candidate,
}
use bitcoin_stack_tracker.Store.Depots.Ids.{free_depot_id-fresh}

-- No text stands in the list twice.
abbrev pub IsUnique : List String → Type 0
IsUnique [] = Unit
IsUnique (x ∷ xs) = (is_in x xs ≡ false) × IsUnique xs

unfoldable pub IsLimited : {D : Type 0} → LedgerData D → Type 0
IsLimited l =
    (length l.entries ≤ max_ledger_entries)
    × (length l.depots ≤ max_depots)
    × (length l.goals ≤ max_goals)
    × IsUnique (depot_ids l.depots)
    × (is_in default_depot_id (depot_ids l.depots) ≡ true)

pub length-put :
    {A : Type 0} (le : A → A → Bool) (x : A) (xs : List A) → length (put le x xs) ≡ length xs + 1
unfolding put
length-put le x [] = refl
length-put le x (y ∷ ys) = ground (arith, length-put le x ys)

pub length-sorted :
    {A : Type 0} (le : A → A → Bool) (xs : List A) → length (sorted le xs) ≡ length xs
unfolding sorted
length-sorted le [] = refl
length-sorted le (x ∷ xs) = omega (arith, length-put le x (sorted le xs), length-sorted le xs)

pub length-keep : {A : Type 0} (p : A → Bool) (xs : List A) → length (keep p xs) ≤ length xs
length-keep p [] = omega arith
length-keep p (x ∷ xs) = ground (arith, length-keep p xs)

pub length-set : {A : Type 0} (xs : List A) (i : ℕ) (v : A) → length (set xs i v) ≡ length xs
length-set [] i v = refl
length-set (x ∷ xs) zero v = refl
length-set (x ∷ xs) (suc i) v = omega (arith, length-set xs i v)

pub is_in-snoc : (x y : String) (xs : List String) → is_in x (xs ++ y ∷ []) ≡ (is_in x xs || y == x)
is_in-snoc x y [] = ground (arith, eq_iff y x)
is_in-snoc x y (z ∷ xs) = ground (arith, is_in-snoc x y xs)

pub IsUnique-snoc :
    (y : String) (xs : List String) → is_in y xs ≡ false → IsUnique xs → IsUnique (xs ++ y ∷ [])
IsUnique-snoc y [] h u = (refl, tt)
IsUnique-snoc y (x ∷ xs) h (n, u) =
    let differs : (y == x) ≡ false = ground (arith, eq_iff x y, eq_iff y x) in
    (ground (arith, h, n, differs, is_in-snoc x y xs), IsUnique-snoc y xs (ground (arith, h)) u)

pub depot_ids-snoc :
    (ds : List Depot) (d : Depot) → depot_ids (ds ++ d ∷ []) ≡ depot_ids ds ++ d.id ∷ []
depot_ids-snoc [] d = refl
depot_ids-snoc (e ∷ ds) d = ap (λ xs. e.id ∷ xs) (depot_ids-snoc ds d)

pub is_in-without :
    (x gone : String) (ds : List Depot)
    → is_in x (depot_ids (keep (λ d. not (d.id == gone)) ds))
      ≡ (not (x == gone) && is_in x (depot_ids ds))
is_in-without x gone [] = ground arith
is_in-without x gone (d ∷ ds) =
    ground (arith, eq_iff d.id x, eq_iff d.id gone, eq_iff x gone, is_in-without x gone ds)

pub IsUnique-without :
    (gone : String) (ds : List Depot)
    → IsUnique (depot_ids ds)
    → IsUnique (depot_ids (keep (λ d. not (d.id == gone)) ds))
IsUnique-without gone [] u = tt
IsUnique-without gone (d ∷ ds) (n, u) = elim (Bool-cases (d.id == gone)) [
  | inl same ↦ rw same (IsUnique-without gone ds u)
  | inr differs ↦
      rw differs (ground (arith, n, is_in-without d.id gone ds), IsUnique-without gone ds u)
]

pub change_goal-length :
    {D : Type 0} (py : Python D) (tx : Texts D) (details : Details) (id : String) (f : Goal → Goal)
    (gs hs : List Goal)
    → change_goal py tx details id f gs ≡ some hs
    → length hs ≡ length gs
unfolding change_goal
change_goal-length py tx details id f [] hs h = absurd (cc)
change_goal-length py tx details id f (g ∷ gs) hs h =
    elim (Option-cases (change_goal py tx details id f gs)) [
      | inl e ↦ ground (arith, e)
      | inr (ks, e) ↦ ground (arith, e, change_goal-length py tx details id f gs ks e)
    ]

pub fits :
    {D : Type 0} (l : LedgerData D) {n : ℕ}
    → n ≡ length l.entries
    → IsLimited l
    → n ≤ max_ledger_entries
unfolding IsLimited
fits l same (n, d, g, u, m) = omega (arith, same, n)

pub cleared :
    {D : Type 0} (l : LedgerData D)
    → IsLimited l
    → IsLimited (record l { entries = []; chart_revision = none })
unfolding IsLimited
cleared l (n, d, g, u, m) = (omega arith, d, g, u, m)

pub limited_if :
    {A D : Type 0} (b : Bool) (x y : A × Store D)
    → (b ≡ true → IsLimited x.1.ledger)
    → (b ≡ false → IsLimited y.1.ledger)
    → IsLimited (if b then x else y).1.ledger
limited_if true x y p q = p refl
limited_if false x y p q = q refl

module _ {D : Type 0} (py : Python D) (tx : Texts D) (details : Details) where
  pub save_ledger-ledger :
      (now : Datetime) (refresh : Bool) (s : Store D)
      → (save_ledger py details now refresh s).1.ledger ≡ s.ledger
  unfolding save_ledger refresh_fifo_cache sealing_error
  save_ledger-ledger now true s = ground arith
  save_ledger-ledger now false s = ground arith

  -- The ledger has the rows that a change gives it, or those that it had.
  pub change_rows-IsLimited :
      (now : Datetime) (rows : List (Row D)) (s : Store D)
      → length rows ≤ max_ledger_entries
      → IsLimited s.ledger
      → IsLimited (change_rows py tx details now rows s).1.ledger
  unfolding IsLimited change_rows commit_rows
  change_rows-IsLimited now rows s few (n, d, g, u, m) =
      go (validate_fifo_change py details now s.ledger.entries rows s)
    where
      go :
          (v : Result (FifoCache D))
          → IsLimited
              (elim v as (λ x. Result Unit × Store D) [
                | error e ↦ (error e, s)
                | ok cache ↦ commit_rows py tx details now rows cache s
              ]).1.ledger
      go (error e) = (n, d, g, u, m)
      go (ok cache) =
          let s' : Store D = record s {
            ledger = record s.ledger { entries = rows; chart_revision = none };
            fifo_cache = cache;
          } in
          rw (save_ledger-ledger now false s') (few, d, g, u, m)

  pub saved-IsLimited :
      (now : Datetime) (refresh : Bool) (s : Store D)
      → IsLimited s.ledger
      → IsLimited (save_ledger py details now refresh s).1.ledger
  saved-IsLimited now refresh s l = rw (save_ledger-ledger now refresh s) l
