-- ===== src/Store/Changes.antt =====
-- The calls that change the ledger's rows. `now` is the moment of the call.
use bitcoin_stack_tracker.Common.{
  ℕ, ◌+◌, Bool, true, false, Option, none, some, String, List, [], ◌∷◌, ◌++◌, if◌then◌else◌, leb,
  length, nat_eq, keep, not, ◌==◌, texts, ◌&&◌, ◌||◌, get_elem?, set, or_else,
}
use bitcoin_stack_tracker.Common.Int.{ℤ, pos, ltb_ℤ}
use bitcoin_stack_tracker.Ledger.{
  Kind, stack, network_fee, Entry, Python, Datetime, TimeValue, text, moment, missing, to_utc,
  is_text, decimal_value,
}
use bitcoin_stack_tracker.Fifo.Books.{Details}
use bitcoin_stack_tracker.Security.State.{Result, ok, error, vault_locked, value_error}
use bitcoin_stack_tracker.Store.Data.{Texts, Row, Depot, FifoCache, Store, max_ledger_entries}
use bitcoin_stack_tracker.Store.Rows.{
  validated_ledger_timestamp, import_ref_hash, same_transaction_identity, sorted_rows,
}
use bitcoin_stack_tracker.Store.Cache.{validate_fifo_change}
use bitcoin_stack_tracker.Store.Save.{save_ledger}

-- `MAX_NOTE_LENGTH`
abbrev pub max_note_length : ℕ
max_note_length = 2_000

-- `any(item.get("id") == depot_id for item in depots)`
unfoldable pub any_depot : String → List Depot → Bool
any_depot depot_id [] = false
any_depot depot_id (d ∷ ds) = d.id == depot_id || any_depot depot_id ds

unfoldable pub rows_without : {D : Type 0} → String → List (Row D) → List (Row D)
rows_without item_id rows = keep (λ r. not (r.entry.id == item_id)) rows

-- `next((idx for idx, item in enumerate(entries) if item.get("id") == item_id), None)`
unfoldable pub index_of : {D : Type 0} → String → List (Row D) → Option ℕ
index_of item_id [] = none
index_of item_id (r ∷ rs) =
    if r.entry.id == item_id
    then some 0
    else elim (index_of item_id rs) [ none ↦ none | some i ↦ some (i + 1) ]

abbrev as_text : Option String → Option TimeValue
as_text none = none
as_text (some s) = some (text s)

-- A row of the ledger that the store itself writes.
unfoldable pub new_entry : {D : Type 0} → String → Kind → String → String → Option ℤ → Entry D
new_entry id kind timestamp depot_id amount = record {
  id = id;
  kind = kind;
  timestamp = text timestamp;
  depot_id = some depot_id;
  amount_btc = amount;
  price = none;
  fee = none;
  currency = none;
  fee_btc = none;
  fee_btc_affects_stack = false;
  transaction_fee = false;
  source_entry_id = none;
  source_type = none;
}

unfoldable pub plain_row : {D : Type 0} → Entry D → String → String → Row D
plain_row e note network = record {
  entry = e;
  note = note;
  network = network;
  included_fee = none;
  included_fee_estimated = false;
  import_ref_hash = "";
}

module _ {D : Type 0} (py : Python D) (tx : Texts D) (details : Details) where
  -- The rows that a checked change leaves, with their cache, and the save.
  unfoldable pub commit_rows :
      Datetime → List (Row D) → FifoCache D → Store D → Result Unit × Store D
  unfolding save_ledger
  commit_rows now rows cache s = save_ledger py details now false (record s {
    ledger = record s.ledger { entries = rows; chart_revision = none };
    fifo_cache = cache;
  })

  -- The change of all rows to `rows`, unless it worsens an oversold depot.
  unfoldable pub change_rows : Datetime → List (Row D) → Store D → Result Unit × Store D
  unfolding validate_fifo_change commit_rows
  change_rows now rows s = elim (validate_fifo_change py details now s.ledger.entries rows s) [
    | error e ↦ (error e, s)
    | ok cache ↦ commit_rows now rows cache s
  ]

  -- `_async_append`
  unfoldable pub append_row : Datetime → Row D → Store D → Result Unit × Store D
  unfolding change_rows sorted_rows
  append_row now r s =
      if s.locked
      then (error vault_locked, s)
      else if leb max_ledger_entries (length s.ledger.entries)
      then (error value_error, s)
      else change_rows now (sorted_rows py tx (s.ledger.entries ++ r ∷ [])) s

  -- The check of `has_depot`: an exception, or whether the depot is known.
  unfoldable pub has_depot : String → Store D → Result Bool
  unfolding any_depot
  has_depot depot_id s =
      if s.locked then error vault_locked else ok (any_depot depot_id s.ledger.depots)

  -- The row of `_async_add_transaction`, or its ValueError.
  unfoldable pub transaction_row :
      Datetime
      → String
      → Kind
      → TimeValue
      → D
      → String
      → D
      → D
      → D
      → Bool
      → String
      → String
      → Option (Row D)
  unfolding validated_ledger_timestamp new_entry plain_row to_utc
  transaction_row now id kind timestamp amount currency price fee fee_btc affects note depot_id =
      if not (py.is_positive amount) || not (py.is_positive price)
      then none
      else if tx.is_negative fee || tx.is_negative fee_btc
      then none
      else elim (validated_ledger_timestamp py tx (to_utc now) timestamp) [
        | none ↦ none
        | some at ↦
            let e = new_entry id kind at depot_id (some (tx.to_sats amount)) in
            let charged = py.is_positive fee_btc in
            some (
              plain_row
                (record e {
                  currency = some (py.upper currency);
                  price = some (tx.to_money price);
                  fee = some (tx.to_money fee);
                  fee_btc = if charged then some (tx.to_sats fee_btc) else none;
                  fee_btc_affects_stack = charged && affects;
                })
                (tx.clip max_note_length (tx.strip note)) "")
      ]

  -- The row of `async_add_stack`, or its ValueError.
  unfoldable pub stack_row : Datetime → String → TimeValue → D → String → String → Option (Row D)
  unfolding validated_ledger_timestamp new_entry plain_row to_utc
  stack_row now id timestamp amount note depot_id =
      if not (py.is_positive amount)
      then none
      else elim (validated_ledger_timestamp py tx (to_utc now) timestamp) [
        | none ↦ none
        | some at ↦ some (
            plain_row (new_entry id stack at depot_id (some (tx.to_sats amount)))
              (tx.clip max_note_length (tx.strip note)) "")
      ]

  -- The row of `async_add_network_fee`, or its ValueError.
  unfoldable pub network_fee_row :
      Datetime → String → TimeValue → D → String → D → String → String → String → Option (Row D)
  unfolding validated_ledger_timestamp new_entry plain_row is_text to_utc
  network_fee_row now id timestamp amount currency price network note depot_id =
      let name = tx.lower (tx.strip (if is_text network then network else "onchain")) in
      let code = py.upper (tx.strip currency) in
      if not (py.is_positive amount) || not (py.is_positive price)
      then none
      else if not (name == "onchain" || name == "lightning")
      then none
      else elim (validated_ledger_timestamp py tx (to_utc now) timestamp) [
        | none ↦ none
        | some at ↦
            if is_text code
            then some (
                plain_row
                  (record (new_entry id network_fee at depot_id (some (tx.to_sats amount))) {
                    currency = some code;
                    price = some (tx.to_money price);
                  })
                  (tx.clip max_note_length (tx.strip note)) name)
            else none
      ]

  -- What the three calls do with their row: the depot first, then the row, then the append.
  unfoldable pub add_row : Datetime → String → Option (Row D) → Store D → Result Unit × Store D
  unfolding has_depot append_row
  add_row now depot_id row s = elim (has_depot depot_id s) [
    | error e ↦ (error e, s)
    | ok known ↦
        if known
        then elim row [ none ↦ (error value_error, s) | some r ↦ append_row now r s ]
        else (error value_error, s)
  ]

  -- `async_delete`
  unfoldable pub delete_row : Datetime → String → Store D → Result Bool × Store D
  unfolding rows_without change_rows
  delete_row now item_id s =
      let rows = rows_without item_id s.ledger.entries in
      if s.locked
      then (error vault_locked, s)
      else if nat_eq (length rows) (length s.ledger.entries)
      then (ok false, s)
      else let (done, t) = change_rows now rows s in
        (elim done [ error e ↦ error e | ok _ ↦ ok true ], t)

  -- `async_delete_all_entries`
  unfoldable pub delete_all_rows : Datetime → Store D → Result ℕ × Store D
  unfolding save_ledger
  delete_all_rows now s =
      let deleted = length s.ledger.entries in
      if s.locked
      then (error vault_locked, s)
      else if nat_eq deleted 0
      then (ok 0, s)
      else let (done, t) =
          save_ledger py details now true
            (record s { ledger = record s.ledger { entries = []; chart_revision = none } }) in
        (elim done [ error e ↦ error e | ok _ ↦ ok deleted ], t)

  -- The replacement that `async_update_entry` puts in place of `old`, or its ValueError. An absent
  -- `fee_btc` is none.
  unfoldable pub updated_row : Datetime → Row D → Row D → Option D → Option (Row D)
  unfolding import_ref_hash decimal_value validated_ledger_timestamp is_text to_utc
  updated_row now old new fee_btc =
      let old_ref = import_ref_hash py tx old in
      let old_fee = decimal_value py old.included_fee in
      let e = new.entry in
      let stamped : Option TimeValue = elim e.timestamp [
        | moment d ↦ as_text (validated_ledger_timestamp py tx (to_utc now) (moment d))
        | text s ↦
            if is_text s
            then as_text (validated_ledger_timestamp py tx (to_utc now) (text s))
            else some (text s)
        | missing ↦ some missing
      ] in
      let fee : Option (Option ℤ) = elim fee_btc [
        | none ↦
            some (
              if ltb_ℤ (pos 0) (or_else old.entry.fee_btc (pos 0)) then old.entry.fee_btc else none)
        | some d ↦
            if tx.is_negative d
            then none
            else some (if py.is_positive d then some (tx.to_sats d) else none)
      ] in
      elim fee [
        | none ↦ none
        | some charged ↦ elim stamped [
          | none ↦ none
          | some at ↦ some (record new {
            entry = record e { id = old.entry.id; timestamp = at; fee_btc = charged };
            note = tx.clip max_note_length (tx.strip new.note);
            import_ref_hash = if is_text old_ref then old_ref else new.import_ref_hash;
            included_fee =
                if py.is_positive old_fee then some (tx.to_money old_fee) else new.included_fee;
            included_fee_estimated =
                if py.is_positive old_fee && old.included_fee_estimated
                then true
                else new.included_fee_estimated;
          })
        ]
      ]

  -- Whether another row than the one at the index has the identity of `r`.
  unfoldable pub identity_taken : ℕ → Row D → ℕ → List (Row D) → Bool
  unfolding same_transaction_identity
  identity_taken index r at [] = false
  identity_taken index r at (x ∷ xs) =
      not (nat_eq at index) && same_transaction_identity py tx r x
      || identity_taken index r (at + 1) xs

  -- `async_update_entry`
  unfoldable pub update_row : Datetime → String → Row D → Option D → Store D → Result Bool × Store D
  unfolding index_of updated_row identity_taken sorted_rows change_rows
  update_row now item_id new fee_btc s =
      let rows = s.ledger.entries in
      if s.locked then (error vault_locked, s) else elim (index_of item_id rows) [
        | none ↦ (ok false, s)
        | some index ↦ elim (get_elem? rows index) [
          | none ↦ (ok false, s)
          | some old ↦ elim (updated_row now old new fee_btc) [
            | none ↦ (error value_error, s)
            | some r ↦
                if identity_taken index r 0 rows
                then (error value_error, s)
                else let (done, t) = change_rows now (sorted_rows py tx (set rows index r)) s in
                  (elim done [ error e ↦ error e | ok _ ↦ ok true ], t)
          ]
        ]
      ]
