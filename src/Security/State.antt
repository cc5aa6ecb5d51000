-- ===== src/Security/State.antt =====
-- The state of `BitcoinSecurityStore`: the access policy, the copy of it on disk, the unlock
-- sessions in memory. `V` are legacy vault keys and `S` wrapped keys, both of the cryptography
-- package.
use bitcoin_stack_tracker.Common.{
  ℕ, ◌*◌, Bool, true, false, Option, none, some, String, List, [], ◌∷◌, if◌then◌else◌, or_else,
  ◌&&◌, ◌==◌, texts, ltb, not,
}
use bitcoin_stack_tracker.Common.Dict.{Dict, lookup}
use bitcoin_stack_tracker.Common.Set.{is_in, discard, pop}
use bitcoin_stack_tracker.Ledger.{is_text}

-- The values of `VALID_ENCRYPTION_MODES`.
pub data EncryptionMode : Type 0 where
  encryption_none encryption_password encryption_legacy : EncryptionMode

-- `encryption_mode == ENCRYPTION_PASSWORD`
unfoldable pub is_password : EncryptionMode → Bool
is_password encryption_password = true
is_password _ = false

-- `encryption_mode == ENCRYPTION_LEGACY`
unfoldable pub is_legacy : EncryptionMode → Bool
is_legacy encryption_legacy = true
is_legacy _ = false

-- `self._data`, the attribute `policy` below. The id of no user is the empty text.
pub record Policy (S : Type 0) : Type 0 where
  pub owner_user_id : String
  pub allowed_user_ids : List String
  pub expose_sensitive_sensors : Bool
  pub encryption_mode : EncryptionMode
  pub key_slots : Dict String S

-- A call of `async_set_sensitive_sensors` that has passed its test and waits for `self._lock`.
pub record Exposure : Type 0 where
  pub actor : String
  pub enabled : Bool

-- The object's attributes. `stored` is what the last `async_save` wrote. A deadline is a moment of
-- `monotonic()` in nanoseconds, or none for a session that does not expire. `waiting` is the calls
-- that wait for the lock, in their order.
pub record Security (V S : Type 0) : Type 0 where
  pub policy : Policy S
  pub stored : Policy S
  pub legacy_vault_key : Option V
  pub unlocked : List String
  pub timeouts : Dict String ℕ
  pub deadlines : Dict String (Option ℕ)
  pub waiting : List Exposure

pub data Error : Type 0 where
  access_denied vault_locked value_error runtime_error : Error

-- What a call returns, or the exception it raises.
pub data Result (A : Type 0) : Type 0 where
  ok : A → Result A
  error : Error → Result A

-- `timeout * 60` seconds, in nanoseconds.
unfoldable pub minutes_long : ℕ → ℕ
minutes_long minutes = minutes * 60_000_000_000

module _ {V S : Type 0} where
  unfoldable pub is_allowed : String → Security V S → Bool
  unfolding is_text
  is_allowed user_id s = is_text user_id && is_in user_id s.policy.allowed_user_ids

  unfoldable pub is_owner : String → Security V S → Bool
  unfolding is_text
  is_owner user_id s = is_text user_id && user_id == s.policy.owner_user_id

  -- `self._unlock_deadlines.get(user_id)`
  unfoldable pub deadline_of : String → Security V S → Option ℕ
  deadline_of user_id s = or_else (lookup user_id s.deadlines) none

  unfoldable pub lock_user : String → Security V S → Security V S
  lock_user user_id s = record s {
    unlocked = discard user_id s.unlocked;
    timeouts = pop user_id s.timeouts;
    deadlines = pop user_id s.deadlines;
  }

  unfoldable pub lock_all_users : Security V S → Security V S
  lock_all_users s = record s { unlocked = []; timeouts = []; deadlines = [] }

  -- Whether the session has expired just now, and the state after.
  unfoldable pub expire_user_if_due : ℕ → String → Security V S → Bool × Security V S
  unfolding deadline_of lock_user
  expire_user_if_due now user_id s = elim (deadline_of user_id s) [
    | none ↦ (false, s)
    | some deadline ↦
        if is_in user_id s.unlocked
        then (if ltb now deadline then (false, s) else (true, lock_user user_id s))
        else (false, s)
  ]

  -- `expire_unlock_sessions`, over the users that its list holds; `clock` is the moment at which it
  -- comes to a user.
  unfoldable pub expire_each :
      (String → ℕ) → List String → Security V S → List String × Security V S
  unfolding expire_user_if_due
  expire_each clock [] s = ([], s)
  expire_each clock (user_id ∷ users) s =
      let (due, t) = expire_user_if_due (clock user_id) user_id s in
      let (expired, u) = expire_each clock users t in
      (if due then user_id ∷ expired else expired, u)

  unfoldable pub expire_unlock_sessions : (String → ℕ) → Security V S → List String × Security V S
  unfolding expire_each
  expire_unlock_sessions clock s = expire_each clock s.unlocked s

  unfoldable pub is_user_unlocked : ℕ → String → Security V S → Bool × Security V S
  unfolding is_password is_allowed is_text expire_user_if_due
  is_user_unlocked now user_id s =
      if is_password s.policy.encryption_mode
      then (if not (is_text user_id)
          then (false, s)
          else let t = (expire_user_if_due now user_id s).1 in (is_in user_id t.unlocked, t))
      else (is_allowed user_id s, s)
