-- ===== src/Store/Tests.antt =====
-- A small store through imports, changes and locks, and the theorems at concrete inputs.
mod Dashes
use bitcoin_stack_tracker.Store.Rows.{same_fingerprint}
use bitcoin_stack_tracker.Common.{
  [], ◌∷◌, ℕ, zero, suc, ◌+◌, ◌*◌, ◌/◌, ◌≡◌, ◌≢◌, refl, sym, ap, ◌∙◌, Bool, true, false, Option,
  none, some, String, List, if◌then◌else◌, arith, ◌==◌, texts,
}
use bitcoin_stack_tracker.Common.Int.{ℤ, pos, pos_part, neg_part, sub_ℕ, ltb_ℤ, ◌+ℤ◌, ◌-ℤ◌}
use bitcoin_stack_tracker.Common.Set.{is_in}
use bitcoin_stack_tracker.Ledger.{Kind, purchase, sale, expense, Python, Datetime, text, day}
use bitcoin_stack_tracker.Ledger.Slug.{slugify}
use bitcoin_stack_tracker.Fifo.Holding.{holding_details}
use bitcoin_stack_tracker.Security.State.{
  Result, ok, error, encryption_none, encryption_password, value_error,
}
use bitcoin_stack_tracker.Store.Data.{Texts, Row, Depot, TaxSettings, LedgerData, Store}
use bitcoin_stack_tracker.Store.Tests.Dashes.{dashed, dashed-NumbersApart}
use bitcoin_stack_tracker.Store.Cache.{build_fifo_cache}
use bitcoin_stack_tracker.Store.Oversell.{IsCurrent, is_key, lookup-build, oversold_of}
use bitcoin_stack_tracker.Store.Changes.{new_entry, plain_row, add_row, delete_row}
use bitcoin_stack_tracker.Store.Import.{
  RawRow, import_loop, seen_of, bulk_import, import_duplicate_flags,
}
use bitcoin_stack_tracker.Store.Import.Agree.{marked, unmarked, import_loop-duplicate_flags}
use bitcoin_stack_tracker.Store.Guard.{
  RowCall, adds, deletes, clears, imports, IsNoWorse, row_history, row_history-IsNoWorse,
}
use bitcoin_stack_tracker.Store.Depots.{depot_ids, free_depot_id, add_depot}
use bitcoin_stack_tracker.Store.Depots.Ids.{NumbersApart, free_depot_id-total}
use bitcoin_stack_tracker.Store.Limits.{IsLimited}
use bitcoin_stack_tracker.Store.Limits.History.{
  StoreCall, changes_rows, adds_depot, deletes_depot, adds_goal, locks, store_history,
  store_history-IsLimited,
}

abbrev midnight : Datetime
midnight = record { wall = 5 * day; offset = none }

-- Decimals as whole numbers, every text a timestamp of the same day.
abbrev whole : Python ℤ
whole = record {
  fromisoformat = λ s. some midnight;
  upper = λ s. s;
  nought = pos 0;
  of_sats = pos;
  plus = ◌+ℤ◌;
  minus = ◌-ℤ◌;
  times = λ a b. sub_ℕ (pos_part a * pos_part b) (neg_part a * pos_part b);
  over = λ a b. sub_ℕ (pos_part a / pos_part b) (neg_part a / pos_part b);
  is_positive = λ a. ltb_ℤ (pos 0) a;
}

abbrev plain_texts : Texts ℤ
plain_texts = record {
  strip = λ s. s;
  lower = λ s. s;
  clip = λ n s. s;
  isoformat = λ i. "1970";
  to_sats = λ d. d;
  to_money = λ d. d;
  money_text = λ d. if ltb_ℤ (pos 3) d then "more" else "less";
  is_negative = λ d. ltb_ℤ d (pos 0);
  btc_label = λ d. "BTC";
  ascii = λ s. s;
  numbered = dashed;
}

abbrev raw : String → Kind → ℕ → RawRow ℤ
raw id kind amount = record {
  new_id = id;
  kind = kind;
  timestamp = "1970";
  depot_id = "";
  amount_btc = pos amount;
  price = pos 3;
  fee = pos 0;
  included_fee = pos 0;
  included_fee_estimated = false;
  fee_btc = pos 0;
  currency = "EUR";
  import_ref_hash = "";
  note = "";
}

-- A purchase of 5 and a sale of 2.
abbrev stored_rows : List (Row ℤ)
stored_rows =
    plain_row
      (record (new_entry "a" purchase "1970" "main" (some (pos 5))) {
        currency = some "EUR";
        price = some (pos 3);
      })
      "" ""
    ∷ plain_row
        (record (new_entry "b" sale "1970" "main" (some (pos 2))) {
          currency = some "EUR";
          price = some (pos 3);
        })
        "" ""
    ∷ []

abbrev main_depot : Depot
main_depot = record { id = "main"; name = "Main" }

abbrev row_ids : List (Row ℤ) → List String
row_ids [] = []
row_ids (r ∷ rs) = r.entry.id ∷ row_ids rs

small : Store ℤ
unfolding build_fifo_cache new_entry plain_row
small = record {
  ledger = record {
    entries = stored_rows;
    depots = main_depot ∷ [];
    goals = [];
    tax_settings = record { long_term_days = pos 365; note = "" };
    chart_revision = some "r";
  };
  stored = none;
  locked = false;
  encryption_mode = encryption_password;
  has_session_key = true;
  has_legacy_key = false;
  fifo_cache =
      build_fifo_cache whole (holding_details whole) midnight stored_rows (main_depot ∷ [])
        (pos 365);
}

small-IsCurrent : IsCurrent whole (holding_details whole) small
unfolding IsCurrent small oversold_of
small-IsCurrent j k h =
    lookup-build whole (holding_details whole) midnight stored_rows (main_depot ∷ []) (pos 365) j k
      h

-- An import of a duplicate, a new purchase and the same again; a sale of too much; a deletion.
abbrev calls : List (RowCall ℤ)
calls =
    imports midnight (raw "c" purchase 5 ∷ raw "d" purchase 4 ∷ raw "e" purchase 4 ∷ [])
    ∷ adds midnight "main"
        (some (plain_row (new_entry "f" sale "1970" "main" (some (pos 9))) "" ""))
    ∷ deletes midnight "a"
    ∷ []

row_history-IsNoWorse_example :
    IsNoWorse whole plain_texts
      (holding_details whole)
      small
      (row_history whole plain_texts (holding_details whole) calls small)
row_history-IsNoWorse_example =
    row_history-IsNoWorse whole plain_texts (holding_details whole) calls small small-IsCurrent

-- The sale of 9 of the 7 that are left is refused; the deletion is not.
run_calls :
    row_ids (row_history whole plain_texts (holding_details whole) calls small).ledger.entries
    ≡ "d" ∷ "b" ∷ []
unfolding row_history small holding_details
run_calls = refl

abbrev reviewed : List (RawRow ℤ)
reviewed = raw "c" purchase 5 ∷ raw "d" purchase 4 ∷ raw "e" purchase 4 ∷ []

abbrev imported : Row ℤ
unfolding new_entry plain_row
imported =
    plain_row
      (record (new_entry "d" purchase "1970" "main" (some (pos 4))) {
        currency = some "EUR";
        price = some (pos 3);
        fee = some (pos 0);
      })
      "" ""

run_import :
    import_loop whole plain_texts midnight
      (main_depot ∷ [])
      (seen_of whole plain_texts stored_rows)
      reviewed
    ≡ some (imported ∷ [], 2)
unfolding import_loop seen_of imported same_fingerprint
run_import = refl

import_loop-duplicate_flags_example :
    (imported ∷ []
      ≡ unmarked whole plain_texts midnight
          (main_depot ∷ [])
          (import_duplicate_flags whole plain_texts stored_rows reviewed)
          reviewed)
    × (2 ≡ marked (import_duplicate_flags whole plain_texts stored_rows reviewed))
import_loop-duplicate_flags_example =
    import_loop-duplicate_flags whole plain_texts midnight (main_depot ∷ []) stored_rows reviewed
      (imported ∷ []) 2 (λ h e. refl) run_import

run_flags : import_duplicate_flags whole plain_texts stored_rows reviewed ≡ true ∷ false ∷ true ∷ []
unfolding import_duplicate_flags same_fingerprint
run_flags = refl

free_depot_id-total_example :
    (id : String) × (free_depot_id dashed "main" ("main" ∷ "--main" ∷ []) ≡ some id)
    × (is_in id ("main" ∷ "--main" ∷ []) ≡ false)
free_depot_id-total_example =
    free_depot_id-total dashed "main" ("main" ∷ "--main" ∷ []) dashed-NumbersApart

run_free : free_depot_id dashed "main" ("main" ∷ "--main" ∷ []) ≡ some "---main"
unfolding free_depot_id dashed
run_free = refl

abbrev store_calls : List (StoreCall ℤ)
store_calls =
    adds_depot midnight "main"
    ∷ deletes_depot midnight "main"
    ∷ adds_goal midnight "g" "" (pos 9) "main" ""
    ∷ changes_rows (deletes midnight "a")
    ∷ []

small-IsLimited : IsLimited small.ledger
unfolding IsLimited small
small-IsLimited = (omega arith, omega arith, omega arith, (refl, tt), refl)

store_history-IsLimited_example :
    IsLimited (store_history whole plain_texts (holding_details whole) store_calls small).ledger
store_history-IsLimited_example =
    store_history-IsLimited whole plain_texts (holding_details whole) store_calls small
      small-IsLimited

-- A depot named as the default one gets a number; the default one stays; a deletion that would
-- leave the sale of 2 without BTC is refused.
run_store :
    let t = store_history whole plain_texts (holding_details whole) store_calls small in
    (row_ids t.ledger.entries ≡ "a" ∷ "b" ∷ [])
    × (depot_ids t.ledger.depots ≡ "main" ∷ "---main" ∷ [])
unfolding store_history small holding_details dashed
run_store = (refl, refl)
