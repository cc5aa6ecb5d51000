-- ===== src/Security/Calls.antt =====
-- The calls that change a `BitcoinSecurityStore` as values, so that a history is a list of them,
-- and what a predicate must survive to survive every history.
use bitcoin_stack_tracker.Common.{
  ℕ, Bool, true, false, String, List, [], ◌∷◌, ◌++◌, ◌≡◌, ◌&&◌, texts,
}
use bitcoin_stack_tracker.Common.Dict.{Dict}
use bitcoin_stack_tracker.Common.Set.{is_in}
use bitcoin_stack_tracker.Security.State.{
  Exposure, EncryptionMode, is_password, Security, is_allowed, lock_user, lock_all_users,
  expire_unlock_sessions, is_user_unlocked,
}
use bitcoin_stack_tracker.Security.Sessions.{
  is_auto_lock_choice, begin_session, mark_user_unlocked, set_auto_lock, configure_user_auto_lock,
  refresh_deadline, touch_user_unlock,
}
use bitcoin_stack_tracker.Security.Policy.{
  Vault, User, StatusClock, save, public_status, restrict, set_allowed_users,
  test_sensitive_sensors, write_sensitive_sensors, finish_sensitive_sensors, set_encryption_mode,
}

-- A call with its arguments, and the moments at which it reads the clock. The two parts of
-- `async_set_sensitive_sensors`, before the lock and under it, are calls of their own, since others
-- run between them: `requests` and `exposes`.
pub data Call : Type 0 where
  expires : (String → ℕ) → Call
  asks : ℕ → String → Call
  marks : ℕ → String → ℕ → Call
  configures : ℕ → ℕ → String → ℕ → Bool → Call
  touches : ℕ → ℕ → String → Call
  locks : String → Call
  locks_all : Call
  reports : StatusClock → String → Call
  allows : StatusClock → List User → String → List String → Call
  requests : String → Bool → Call
  exposes : StatusClock → Call
  encrypts : EncryptionMode → Call

module _ {V S : Type 0} (vault : Vault V S) where
  -- The state after a call, whether it returns or raises.
  unfoldable pub after : Call → Security V S → Security V S
  unfolding expire_unlock_sessions is_user_unlocked mark_user_unlocked configure_user_auto_lock
      touch_user_unlock lock_user lock_all_users public_status set_allowed_users
      test_sensitive_sensors finish_sensitive_sensors set_encryption_mode
  after (expires clock) s = (expire_unlock_sessions clock s).1
  after (asks now user_id) s = (is_user_unlocked now user_id s).1
  after (marks now user_id minutes) s = (mark_user_unlocked now user_id minutes s).1
  after (configures now later user_id minutes touch) s =
      (configure_user_auto_lock now later user_id minutes touch s).1
  after (touches now later user_id) s = (touch_user_unlock now later user_id s).1
  after (locks user_id) s = lock_user user_id s
  after locks_all s = lock_all_users s
  after (reports clock user_id) s = (public_status clock user_id s).1
  after (allows clock users actor ids) s = (set_allowed_users vault clock users actor ids s).1
  after (requests actor enabled) s = (test_sensitive_sensors actor enabled s).1
  after (exposes clock) s = (finish_sensitive_sensors clock s).1
  after (encrypts mode) s = set_encryption_mode mode s

  unfoldable pub history : List Call → Security V S → Security V S
  unfolding after
  history [] s = s
  history (c ∷ cs) s = history cs (after c s)

-- The call sets deadlines only from moments that `At` admits, and unlocks only users that `May` admits.
abbrev pub Within : (ℕ → Type 0) → (String → Type 0) → Call → Type 0
Within At May (marks now user_id minutes) = (At now) × May user_id
Within At May (configures now later user_id minutes touch) = At later
Within At May (touches now later user_id) = At later
Within At May _ = Unit

-- The single changes that the calls are made of keep `P`.
pub record Keeps {V S : Type 0} (At : ℕ → Type 0) (May : String → Type 0)
    (P : Security V S → Type 0) : Type 0 where
  pub ends : (u : String) (s : Security V S) → P s → P (lock_user u s)
  pub ends_all : (s : Security V S) → P s → P (lock_all_users s)
  pub begins :
      (now : ℕ) (u : String) (minutes : ℕ) (s : Security V S)
      → At now
      → May u
      → is_allowed u s ≡ true
      → is_auto_lock_choice minutes ≡ true
      → P s
      → P (begin_session now u minutes s)
  pub sets :
      (later : ℕ) (u : String) (minutes : ℕ) (touch : Bool) (s : Security V S)
      → At later
      → is_auto_lock_choice minutes ≡ true
      → P s
      → P (set_auto_lock later u minutes touch s)
  pub refreshes :
      (later : ℕ) (u : String) (s : Security V S) → At later → P s → P (refresh_deadline later u s)
  pub restricts :
      (selected : List String) (s : Security V S)
      → is_in s.policy.owner_user_id selected ≡ true
      → P s
      → P (restrict selected s)
  pub wraps :
      (slots : Dict String S) (s : Security V S)
      → P s
      → P (save (record s { policy = record s.policy { key_slots = slots } }))
  pub waits :
      (call : Exposure) (s : Security V S)
      → (call.enabled && is_password s.policy.encryption_mode) ≡ false
      → P s
      → P (record s { waiting = s.waiting ++ call ∷ [] })
  pub shows :
      (call : Exposure) (calls : List Exposure) (s : Security V S)
      → s.waiting ≡ call ∷ calls
      → P s
      → P (write_sensitive_sensors call.enabled (record s { waiting = calls }))
