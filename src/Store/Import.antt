-- ===== src/Store/Import.antt =====
-- The import of reviewed rows: `_preview_import_item`, `_import_duplicate_flags` and
-- `async_bulk_import`.
pub mod Agree
use bitcoin_stack_tracker.Common.{
  ℕ, ◌+◌, ◌-◌, Bool, true, false, Option, none, some, String, List, [], ◌∷◌, ◌++◌, if◌then◌else◌,
  leb, ltb, length, keep, not, ◌==◌, texts, ◌&&◌, ◌||◌, or_else,
}
use bitcoin_stack_tracker.Common.Int.{ℤ}
use bitcoin_stack_tracker.Common.Dict.{Dict, get_or, insert}
use bitcoin_stack_tracker.Common.Set.{is_in, add}
use bitcoin_stack_tracker.Ledger.{
  Kind, purchase, income, sale, expense, Entry, Python, Datetime, TimeValue, text, to_utc, is_text,
}
use bitcoin_stack_tracker.Fifo.Books.{Details}
use bitcoin_stack_tracker.Security.State.{Result, ok, error, Error, vault_locked, value_error}
use bitcoin_stack_tracker.Store.Data.{
  Texts, Row, Depot, LedgerData, Store, max_ledger_entries, default_depot_id,
}
use bitcoin_stack_tracker.Store.Rows.{
  Fingerprint, fingerprints, normalized_utc_timestamp, validated_ledger_timestamp, is_hash,
  import_ref_hash, transaction_fingerprint, sorted_rows,
}
use bitcoin_stack_tracker.Store.Changes.{
  any_depot, new_entry, plain_row, change_rows, max_note_length,
}

-- A reviewed row: `kind` is its `type`, stripped and in lower case; a missing text is empty.
-- `new_id` is the `uuid4` that it will get.
pub record RawRow (D : Type 0) : Type 0 where
  pub new_id : String
  pub kind : Kind
  pub timestamp : String
  pub depot_id : String
  pub amount_btc : D
  pub price : D
  pub fee : D
  pub included_fee : D
  pub included_fee_estimated : Bool
  pub fee_btc : D
  pub currency : String
  pub import_ref_hash : String
  pub note : String

unfoldable pub is_imported_kind : Kind → Bool
is_imported_kind purchase = true
is_imported_kind income = true
is_imported_kind sale = true
is_imported_kind expense = true
is_imported_kind _ = false

unfoldable pub is_expense : Kind → Bool
is_expense expense = true
is_expense _ = false

unfoldable pub raw_depot : {D : Type 0} → RawRow D → String
unfolding is_text
raw_depot raw = if is_text raw.depot_id then raw.depot_id else default_depot_id

module _ {D : Type 0} (py : Python D) (tx : Texts D) where
  unfoldable pub raw_currency : RawRow D → String
  raw_currency raw = tx.clip 16 (py.upper (tx.strip raw.currency))

  unfoldable pub raw_ref : RawRow D → String
  raw_ref raw = tx.lower (tx.strip raw.import_ref_hash)

  -- The checks of a row's values that the preview and the import share.
  unfoldable pub is_importable : RawRow D → Bool
  unfolding is_imported_kind is_expense raw_currency raw_ref is_text is_hash
  is_importable raw =
      let currency = is_text (raw_currency raw) in
      let priced = py.is_positive raw.price in
      is_imported_kind raw.kind
      && (py.is_positive raw.amount_btc
          && (not (tx.is_negative raw.fee)
              && (not (tx.is_negative raw.included_fee)
                  && (not (tx.is_negative raw.fee_btc)
                      && ((if is_expense raw.kind
                            then (if currency then priced else not priced)
                            else currency && priced)
                          && (not (is_text (raw_ref raw)) || is_hash (raw_ref raw)))))))

  -- The item that both build, at a timestamp.
  unfoldable pub import_item : RawRow D → String → String → String → Row D
  unfolding is_expense raw_currency raw_ref raw_depot is_text new_entry plain_row
  import_item raw id at note =
      let currency = raw_currency raw in
      let valued = not (is_expense raw.kind) || is_text currency && py.is_positive raw.price in
      let charged = py.is_positive raw.fee_btc in
      let included = py.is_positive raw.included_fee in
      let e = new_entry id raw.kind at (raw_depot raw) (some (tx.to_sats raw.amount_btc)) in
      record (plain_row
        (record e {
          currency = if valued then some currency else none;
          price = if valued then some (tx.to_money raw.price) else none;
          fee = if valued then some (tx.to_money raw.fee) else none;
          fee_btc = if charged then some (tx.to_sats raw.fee_btc) else none;
        })
        note "") {
          included_fee = if included then some (tx.to_money raw.included_fee) else none;
          included_fee_estimated = included && raw.included_fee_estimated;
          import_ref_hash = raw_ref raw;
        }

  unfoldable pub preview_import_item : RawRow D → Option (Row D)
  unfolding is_importable import_item normalized_utc_timestamp
  preview_import_item raw =
      if is_importable raw
      then elim (normalized_utc_timestamp py tx (text (tx.strip raw.timestamp))) [
        | none ↦ none
        | some at ↦ some (import_item raw "" at "")
      ]
      else none

  -- The row that `async_bulk_import` makes, or its ValueError.
  unfoldable pub import_row : Datetime → List Depot → RawRow D → Option (Row D)
  unfolding is_importable import_item validated_ledger_timestamp any_depot raw_depot to_utc
  import_row now depots raw =
      if is_importable raw && any_depot (raw_depot raw) depots
      then elim (validated_ledger_timestamp py tx (to_utc now) (text (tx.strip raw.timestamp))) [
        | none ↦ none
        | some at ↦
            some (import_item raw raw.new_id at (tx.clip max_note_length (tx.strip raw.note)))
      ]
      else none

-- The sets and the counter of both loops.
pub record Seen : Type 0 where
  pub existing_fingerprints : List Fingerprint
  pub existing_ref_hashes : List String
  pub legacy_fingerprint_counts : Dict Fingerprint ℕ
  pub pending_fingerprints : List Fingerprint
  pub pending_ref_hashes : List String

-- One more in a `Counter`.
unfoldable pub count_one : Fingerprint → Dict Fingerprint ℕ → Dict Fingerprint ℕ
count_one fp counts = insert fp (get_or fp 0 counts + 1) counts

-- One less.
unfoldable pub count_off : Fingerprint → Dict Fingerprint ℕ → Dict Fingerprint ℕ
count_off fp counts = insert fp (get_or fp 0 counts - 1) counts

module _ {D : Type 0} (py : Python D) (tx : Texts D) where
  unfoldable pub seen_of : List (Row D) → Seen
  unfolding transaction_fingerprint import_ref_hash is_text count_one
  seen_of [] = record {
    existing_fingerprints = [];
    existing_ref_hashes = [];
    legacy_fingerprint_counts = [];
    pending_fingerprints = [];
    pending_ref_hashes = [];
  }
  seen_of (r ∷ rs) =
      let s = seen_of rs in
      let fp = transaction_fingerprint py tx r in
      let ref = import_ref_hash py tx r in
      record s {
        existing_fingerprints = add fp s.existing_fingerprints;
        existing_ref_hashes =
            if is_text ref then add ref s.existing_ref_hashes else s.existing_ref_hashes;
        legacy_fingerprint_counts =
            if is_text ref
            then s.legacy_fingerprint_counts
            else count_one fp s.legacy_fingerprint_counts;
      }

-- One row of `_import_duplicate_flags`: whether it is a duplicate, and the sets after.
unfoldable pub flag_step : Fingerprint → String → Seen → Bool × Seen
unfolding is_text count_off
flag_step fp ref s =
    let known = is_in ref s.existing_ref_hashes || is_in ref s.pending_ref_hashes in
    let legacy = not known && ltb 0 (get_or fp 0 s.legacy_fingerprint_counts) in
    let duplicate = known || legacy in
    if is_text ref
    then (
      duplicate,
      record s {
        legacy_fingerprint_counts =
            if legacy
            then count_off fp s.legacy_fingerprint_counts
            else s.legacy_fingerprint_counts;
        pending_ref_hashes = add ref s.pending_ref_hashes;
        pending_fingerprints =
            if duplicate then s.pending_fingerprints else add fp s.pending_fingerprints;
      },
    )
    else (
      is_in fp s.existing_fingerprints || is_in fp s.pending_fingerprints,
      record s { pending_fingerprints = add fp s.pending_fingerprints },
    )

-- One row of `async_bulk_import`.
unfoldable pub import_step : Fingerprint → String → Seen → Bool × Seen
unfolding is_text count_off
import_step fp ref s =
    if is_text ref
    then (if is_in ref s.existing_ref_hashes || is_in ref s.pending_ref_hashes
        then (true, s)
        else if ltb 0 (get_or fp 0 s.legacy_fingerprint_counts)
        then (
          true,
          record s {
            legacy_fingerprint_counts = count_off fp s.legacy_fingerprint_counts;
            pending_ref_hashes = add ref s.pending_ref_hashes;
          },
        )
        else (
          false,
          record s {
            pending_ref_hashes = add ref s.pending_ref_hashes;
            pending_fingerprints = add fp s.pending_fingerprints;
          },
        ))
    else if is_in fp s.existing_fingerprints || is_in fp s.pending_fingerprints
    then (true, s)
    else (false, record s { pending_fingerprints = add fp s.pending_fingerprints })

module _ {D : Type 0} (py : Python D) (tx : Texts D) where
  unfoldable pub flag_loop : Seen → List (RawRow D) → List Bool
  unfolding preview_import_item transaction_fingerprint import_ref_hash flag_step
  flag_loop s [] = []
  flag_loop s (raw ∷ raws) = elim (preview_import_item py tx raw) [
    | none ↦ false ∷ flag_loop s raws
    | some r ↦
        let (duplicate, t) =
          flag_step (transaction_fingerprint py tx r) (import_ref_hash py tx r) s in
        duplicate ∷ flag_loop t raws
  ]

  unfoldable pub import_duplicate_flags : List (Row D) → List (RawRow D) → List Bool
  unfolding seen_of flag_loop
  import_duplicate_flags existing raws = flag_loop (seen_of py tx existing) raws

  -- The additions and the number of duplicates, or the ValueError of a row. `import_ref_hash` of
  -- the loop is the row's own text, which is a hash or empty.
  unfoldable pub import_loop :
      Datetime → List Depot → Seen → List (RawRow D) → Option (List (Row D) × ℕ)
  unfolding import_row transaction_fingerprint import_step
  import_loop now depots s [] = some ([], 0)
  import_loop now depots s (raw ∷ raws) = elim (import_row py tx now depots raw) [
    | none ↦ none
    | some r ↦
        let (duplicate, t) = import_step (transaction_fingerprint py tx r) r.import_ref_hash s in
        elim (import_loop now depots t raws) [
          | none ↦ none
          | some (rows, duplicates) ↦
              some (if duplicate then (rows, duplicates + 1) else (r ∷ rows, duplicates))
        ]
  ]

  -- `async_bulk_import`: what it returns has the numbers of imported rows and of duplicates.
  unfoldable pub bulk_import :
      Details → Datetime → List (RawRow D) → Store D → Result (ℕ × ℕ) × Store D
  unfolding import_loop seen_of sorted_rows change_rows
  bulk_import details now raws s =
      let current = s.ledger.entries in
      if leb (length raws) 0 || ltb 5_000 (length raws)
      then (error value_error, s)
      else if s.locked
      then (error vault_locked, s)
      else elim (import_loop now s.ledger.depots (seen_of py tx current) raws) [
        | none ↦ (error value_error, s)
        | some ([], duplicates) ↦ (ok (0, duplicates), s)
        | some (r ∷ rows, duplicates) ↦
            if ltb max_ledger_entries (length current + length (r ∷ rows))
            then (error value_error, s)
            else let (done, t) =
                change_rows py tx details now (sorted_rows py tx (current ++ r ∷ rows)) s in
              (elim done [ error e ↦ error e | ok _ ↦ ok (length (r ∷ rows), duplicates) ], t)
      ]
