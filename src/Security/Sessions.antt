-- ===== src/Security/Sessions.antt =====
-- The calls of `BitcoinSecurityStore` that open and extend unlock sessions. `now` and `later` are
-- the moments at which a call reads `monotonic()`, in their order.
use bitcoin_stack_tracker.Common.{
  ℕ, ◌+◌, ◌-◌, ◌/◌, Bool, Option, none, some, String, [], ◌∷◌, if◌then◌else◌, nat_eq, ◌||◌, texts,
  is_some, length, not, numbers,
}
use bitcoin_stack_tracker.Common.Dict.{insert, get_or}
use bitcoin_stack_tracker.Common.Set.{is_in, add}
use bitcoin_stack_tracker.Ledger.{is_text}
use bitcoin_stack_tracker.Security.State.{
  Security, access_denied, vault_locked, value_error, Result, ok, error, minutes_long, is_allowed,
  is_owner, deadline_of, is_user_unlocked, expire_unlock_sessions,
}

-- The minutes that `_validate_auto_lock_minutes` accepts.
unfoldable pub is_auto_lock_choice : ℕ → Bool
is_auto_lock_choice minutes = is_in minutes (0 ∷ 5 ∷ 15 ∷ 30 ∷ 60 ∷ 120 ∷ [])

-- `None if timeout == 0 else monotonic() + timeout * 60`
unfoldable pub deadline_after : ℕ → ℕ → Option ℕ
unfolding minutes_long
deadline_after now timeout = if nat_eq timeout 0 then none else some (now + minutes_long timeout)

module _ {V S : Type 0} where
  unfoldable pub require_allowed : String → Security V S → Result Unit
  unfolding is_allowed
  require_allowed user_id s = if is_allowed user_id s then ok tt else error access_denied

  unfoldable pub require_owner : String → Security V S → Result Unit
  unfolding is_owner
  require_owner user_id s = if is_owner user_id s then ok tt else error access_denied

  unfoldable pub require_unlocked : ℕ → String → Security V S → Result Unit × Security V S
  unfolding require_allowed is_user_unlocked
  require_unlocked now user_id s = elim (require_allowed user_id s) [
    | error e ↦ (error e, s)
    | ok _ ↦
        let (open_session, t) = is_user_unlocked now user_id s in
        (if open_session then ok tt else error vault_locked, t)
  ]

  -- The part of `mark_user_unlocked` after its checks.
  unfoldable pub begin_session : ℕ → String → ℕ → Security V S → Security V S
  unfolding deadline_after
  begin_session now user_id timeout s = record s {
    unlocked = add user_id s.unlocked;
    timeouts = insert user_id timeout s.timeouts;
    deadlines = insert user_id (deadline_after now timeout) s.deadlines;
  }

  unfoldable pub mark_user_unlocked : ℕ → String → ℕ → Security V S → Result Unit × Security V S
  unfolding require_allowed is_auto_lock_choice begin_session
  mark_user_unlocked now user_id minutes s = elim (require_allowed user_id s) [
    | error e ↦ (error e, s)
    | ok _ ↦
        if is_auto_lock_choice minutes
        then (ok tt, begin_session now user_id minutes s)
        else (error value_error, s)
  ]

  -- The part of `configure_user_auto_lock` after its checks.
  unfoldable pub set_auto_lock : ℕ → String → ℕ → Bool → Security V S → Security V S
  unfolding deadline_after deadline_of
  set_auto_lock later user_id timeout touch s = record s {
    timeouts = insert user_id timeout s.timeouts;
    deadlines =
        if nat_eq timeout 0 || (touch || not (is_some (deadline_of user_id s)))
        then insert user_id (deadline_after later timeout) s.deadlines
        else s.deadlines;
  }

  unfoldable pub configure_user_auto_lock :
      ℕ → ℕ → String → ℕ → Bool → Security V S → Result Unit × Security V S
  unfolding require_unlocked is_auto_lock_choice set_auto_lock
  configure_user_auto_lock now later user_id minutes touch s =
      let (checked, t) = require_unlocked now user_id s in
      elim checked [
        | error e ↦ (error e, t)
        | ok _ ↦
            if is_auto_lock_choice minutes
            then (ok tt, set_auto_lock later user_id minutes touch t)
            else (error value_error, t)
      ]

  -- The part of `touch_user_unlock` after its check.
  unfoldable pub refresh_deadline : ℕ → String → Security V S → Security V S
  unfolding minutes_long
  refresh_deadline later user_id s =
      let timeout = get_or user_id 15 s.timeouts in
      record s {
        deadlines =
            if nat_eq timeout 0
            then s.deadlines
            else insert user_id (some (later + minutes_long timeout)) s.deadlines;
      }

  unfoldable pub touch_user_unlock : ℕ → ℕ → String → Security V S → Result Unit × Security V S
  unfolding require_unlocked refresh_deadline
  touch_user_unlock now later user_id s =
      let (checked, t) = require_unlocked now user_id s in
      elim checked [ error e ↦ (error e, t) | ok _ ↦ (ok tt, refresh_deadline later user_id t) ]

  unfoldable pub user_auto_lock_minutes : ℕ → String → Security V S → Option ℕ × Security V S
  unfolding is_text is_user_unlocked
  user_auto_lock_minutes now user_id s =
      if not (is_text user_id)
      then (none, s)
      else let (open_session, t) = is_user_unlocked now user_id s in
        (if open_session then some (get_or user_id 15 t.timeouts) else none, t)

  unfoldable pub user_unlock_expires_in_seconds :
      ℕ → ℕ → String → Security V S → Option ℕ × Security V S
  unfolding is_text is_user_unlocked deadline_of
  user_unlock_expires_in_seconds now later user_id s =
      if not (is_text user_id)
      then (none, s)
      else let (open_session, t) = is_user_unlocked now user_id s in
        (
          if open_session
              then elim (deadline_of user_id t) [
                | none ↦ none
                | some deadline ↦ some ((deadline - later) / 1_000_000_000)
              ]
              else none,
          t,
        )

  unfoldable pub unlocked_user_count : (String → ℕ) → Security V S → ℕ × Security V S
  unfolding expire_unlock_sessions
  unlocked_user_count clock s =
      let (_, t) = expire_unlock_sessions clock s in (length t.unlocked, t)
