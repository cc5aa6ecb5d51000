-- ===== src/Security/Policy.antt =====
-- The calls of `BitcoinSecurityStore` that read or change the access policy and save it.
use bitcoin_stack_tracker.Common.{
  ℕ, Bool, false, Option, none, some, String, List, [], ◌∷◌, ◌++◌, if◌then◌else◌, ◌&&◌, not, texts,
  keep,
}
use bitcoin_stack_tracker.Common.Dict.{Dict}
use bitcoin_stack_tracker.Common.Set.{is_in, add, as_set, keep_keys}
use bitcoin_stack_tracker.Ledger.Order.{codes, codes_le, sorted}
use bitcoin_stack_tracker.Security.State.{
  EncryptionMode, is_password, is_legacy, Security, value_error, runtime_error, Result, ok, error,
  is_allowed, is_owner, is_user_unlocked,
}
use bitcoin_stack_tracker.Security.Sessions.{
  require_owner, user_auto_lock_minutes, user_unlock_expires_in_seconds, unlocked_user_count,
}

-- What the store takes from the cryptography package: a vault key wrapped for a user.
pub record Vault (V S : Type 0) : Type 0 where
  pub wrap : String → V → S

-- A Home Assistant user.
pub record User : Type 0 where
  pub id : String
  pub is_owner : Bool
  pub is_admin : Bool
  pub system_generated : Bool

-- The moments at which `public_status` reads `monotonic()`.
pub record StatusClock : Type 0 where
  pub unlocked_at : ℕ
  pub minutes_at : ℕ
  pub expires_at : ℕ
  pub remains_at : ℕ
  pub counts_at : String → ℕ

-- What `public_status` returns, but for constant texts.
pub record PublicStatus : Type 0 where
  pub encryption_mode : EncryptionMode
  pub allowed : Bool
  pub owner : Bool
  pub user_unlocked : Bool
  pub auto_lock_minutes : Option ℕ
  pub unlock_expires_in_seconds : Option ℕ
  pub unlocked_user_count : Option ℕ
  pub owner_user_id : Option String
  pub allowed_user_ids : List String
  pub expose_sensitive_sensors : Bool

-- `a <= b`
unfoldable pub text_le : String → String → Bool
unfolding codes codes_le
text_le a b = codes_le (codes a) (codes b)

-- `users`, without those that the system has generated.
unfoldable pub people : List User → List User
people users = keep (λ u. not u.system_generated) users

abbrev pub ids_of : List User → List String
ids_of [] = []
ids_of (u ∷ us) = u.id ∷ ids_of us

-- `{str(uid) for uid in ids if str(uid) in users}`, with the owner, sorted.
unfoldable pub selection : List String → List String → String → List String
unfolding sorted text_le
selection users ids owner = sorted text_le (add owner (as_set (keep (λ id. is_in id users) ids)))

module _ {V S : Type 0} where
  -- `await self._store.async_save(self._data)`
  unfoldable pub save : Security V S → Security V S
  save s = record s { stored = s.policy }

  unfoldable pub public_status : StatusClock → String → Security V S → PublicStatus × Security V S
  unfolding is_allowed is_owner is_user_unlocked user_auto_lock_minutes
      user_unlock_expires_in_seconds unlocked_user_count
  public_status clock user_id s =
      let (open_session, t) = is_user_unlocked clock.unlocked_at user_id s in
      let (minutes, u) = user_auto_lock_minutes clock.minutes_at user_id t in
      let (seconds, v) =
        user_unlock_expires_in_seconds clock.expires_at clock.remains_at user_id u in
      let (count, w) = unlocked_user_count clock.counts_at v in
      let owns = is_owner user_id s in
      (
        record {
          encryption_mode = s.policy.encryption_mode;
          allowed = is_allowed user_id s;
          owner = owns;
          user_unlocked = open_session;
          auto_lock_minutes = minutes;
          unlock_expires_in_seconds = seconds;
          unlocked_user_count = if owns then some count else none;
          owner_user_id = if owns then some s.policy.owner_user_id else none;
          allowed_user_ids = if owns then s.policy.allowed_user_ids else [];
          expose_sensitive_sensors = s.policy.expose_sensitive_sensors;
        },
        if owns then w else v,
      )

  -- The allowlist, and the sessions of those who stay on it.
  unfoldable pub restrict : List String → Security V S → Security V S
  restrict selected s = record s {
    policy = record s.policy { allowed_user_ids = selected };
    unlocked = keep (λ id. is_in id selected) s.unlocked;
    timeouts = keep_keys (λ id. is_in id selected) s.timeouts;
    deadlines = keep_keys (λ id. is_in id selected) s.deadlines;
  }

  -- `_wrap_slots`
  unfoldable pub wrap_slots : Vault V S → List String → V → Dict String S
  wrap_slots vault [] key = []
  wrap_slots vault (id ∷ ids) key = (id, vault.wrap id key) ∷ wrap_slots vault ids key

  -- The selected users, or RuntimeError before anything is saved.
  unfoldable pub apply_selection :
      Vault V S → List String → Security V S → Result Unit × Security V S
  unfolding restrict is_legacy wrap_slots save
  apply_selection vault selected s =
      let t = restrict selected s in
      if is_legacy s.policy.encryption_mode
      then elim s.legacy_vault_key [
        | none ↦ (error runtime_error, t)
        | some key ↦ (
          ok tt,
          save
              (record t { policy = record t.policy { key_slots = wrap_slots vault selected key } }),
        )
      ]
      else (ok tt, save (record t { policy = record t.policy { key_slots = [] } }))

  unfoldable pub set_allowed_users :
      Vault V S
      → StatusClock
      → List User
      → String
      → List String
      → Security V S
      → Result PublicStatus × Security V S
  unfolding require_owner selection apply_selection people public_status
  set_allowed_users vault clock users actor ids s = elim (require_owner actor s) [
    | error e ↦ (error e, s)
    | ok _ ↦
        let (done, t) =
          apply_selection vault (selection (ids_of (people users)) ids s.policy.owner_user_id) s in
        elim done [
          | error e ↦ (error e, t)
          | ok _ ↦ let (status, u) = public_status clock actor t in (ok status, u)
        ]
  ]

  -- `async_set_sensitive_sensors` up to the lock: the tests, after which the call waits.
  unfoldable pub test_sensitive_sensors : String → Bool → Security V S → Result Unit × Security V S
  unfolding require_owner is_password
  test_sensitive_sensors actor enabled s = elim (require_owner actor s) [
    | error e ↦ (error e, s)
    | ok _ ↦ if enabled && is_password s.policy.encryption_mode then (error value_error, s) else (
      ok tt,
      record s { waiting = s.waiting ++ record { actor = actor; enabled = enabled } ∷ [] },
    )
  ]

  -- The call's part under the lock: the flag, and the save.
  unfoldable pub write_sensitive_sensors : Bool → Security V S → Security V S
  unfolding save
  write_sensitive_sensors enabled s =
      save (record s { policy = record s.policy { expose_sensitive_sensors = enabled } })

  -- The first call that waits gets the lock; none if no call waits.
  unfoldable pub finish_sensitive_sensors :
      StatusClock → Security V S → Option PublicStatus × Security V S
  unfolding write_sensitive_sensors public_status
  finish_sensitive_sensors clock s = elim s.waiting [
    | [] ↦ (none, s)
    | call ∷ calls ↦
        let (status, u) =
          public_status clock call.actor
            (write_sensitive_sensors call.enabled (record s { waiting = calls })) in
        (some status, u)
  ]

  unfoldable pub set_encryption_mode : EncryptionMode → Security V S → Security V S
  unfolding is_password is_legacy save
  set_encryption_mode mode s =
      let p = s.policy in
      let legacy = is_legacy mode in
      save (record s {
        policy = record p {
          encryption_mode = mode;
          expose_sensitive_sensors = if is_password mode then false else p.expose_sensitive_sensors;
          key_slots = if legacy then p.key_slots else [];
        };
        legacy_vault_key = if legacy then s.legacy_vault_key else none;
        unlocked = [];
      })
