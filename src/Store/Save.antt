-- ===== src/Store/Save.antt =====
-- `require_unlocked`, `_async_save`, and what a lock leaves.
use bitcoin_stack_tracker.Common.{
  Bool, true, false, Option, none, some, String, [], ◌∷◌, if◌then◌else◌, ◌&&◌, not,
}
use bitcoin_stack_tracker.Common.Int.{pos}
use bitcoin_stack_tracker.Ledger.{Python, Datetime}
use bitcoin_stack_tracker.Fifo.Books.{Details}
use bitcoin_stack_tracker.Security.State.{
  is_password, is_legacy, Result, ok, error, Error, vault_locked, runtime_error,
}
use bitcoin_stack_tracker.Store.Data.{LedgerData, Store, default_depot_id}
use bitcoin_stack_tracker.Store.Cache.{build_fifo_cache}

-- The fields of `_empty_data`; the note is the default note.
unfoldable pub empty_data : {D : Type 0} → String → LedgerData D
empty_data note = record {
  entries = [];
  depots = record { id = default_depot_id; name = "Main" } ∷ [];
  goals = [];
  tax_settings = record { long_term_days = pos 365; note = note };
  chart_revision = none;
}

-- The exception that keeps `_async_save` from writing, if any.
unfoldable pub sealing_error : {D : Type 0} → Store D → Option Error
unfolding is_password is_legacy
sealing_error s =
    if is_password s.encryption_mode && not s.has_session_key
    then some vault_locked
    else if is_legacy s.encryption_mode && not s.has_legacy_key
    then some runtime_error
    else none

module _ {D : Type 0} (py : Python D) (details : Details) (now : Datetime) where
  -- `_async_refresh_fifo_cache_without_lock`, in an unlocked store.
  unfoldable pub refresh_fifo_cache : Store D → Store D
  unfolding build_fifo_cache
  refresh_fifo_cache s =
      let d = s.ledger in
      record s {
        fifo_cache =
            build_fifo_cache py details now d.entries d.depots d.tax_settings.long_term_days;
      }

  -- `_async_save`; the flag is `refresh_fifo_cache`.
  unfoldable pub save_ledger : Bool → Store D → Result Unit × Store D
  unfolding refresh_fifo_cache sealing_error
  save_ledger refresh s =
      if s.locked
      then (error vault_locked, s)
      else let t = if refresh then refresh_fifo_cache s else s in
        elim (sealing_error t) [
          | some e ↦ (error e, t)
          | none ↦ (ok tt, record t { stored = some t.ledger })
        ]

-- `async_lock`: without a password nothing is locked.
unfoldable pub lock_store : {D : Type 0} → String → Store D → Store D
unfolding is_password empty_data
lock_store note s =
    if is_password s.encryption_mode
    then record s {
      ledger = empty_data note;
      has_session_key = false;
      fifo_cache = [];
      locked = true;
    }
    else s

-- `_async_unlock_without_lock`: `payload` is what the envelope decrypts to, normalized; none is
-- PasswordDecryptionError.
unfoldable pub unlock_store :
    {D : Type 0}
    → Python D
    → Details
    → Datetime
    → Option (LedgerData D)
    → Store D
    → Option (Store D)
unfolding refresh_fifo_cache
unlock_store py details now none s = none
unlock_store py details now (some payload) s = some (
    refresh_fifo_cache py details now
      (record s { ledger = payload; has_session_key = true; locked = false }))
