-- ===== src/Security/History.antt =====
-- Whatever survives the single changes survives every history of calls.
use bitcoin_stack_tracker.Common.{
  Option, none, some, ℕ, Bool, true, false, String, List, [], ◌∷◌, ◌≡◌, refl, ◌&&◌, ◌||◌, inl, inr,
  Bool-cases, Option-cases, arith, All, texts, ◌==◌, eq_refl, keep,
}
use bitcoin_stack_tracker.Common.Set.{is_in, add, as_set, is_in-add}
use bitcoin_stack_tracker.Ledger.Order.{put, sorted}
use bitcoin_stack_tracker.Security.State.{
  Exposure, EncryptionMode, is_password, is_legacy, Security, is_allowed, expire_user_if_due,
  expire_each, expire_unlock_sessions, is_user_unlocked,
}
use bitcoin_stack_tracker.Security.Sessions.{
  is_auto_lock_choice, require_allowed, require_owner, require_unlocked, mark_user_unlocked,
  configure_user_auto_lock, touch_user_unlock, user_auto_lock_minutes,
  user_unlock_expires_in_seconds, unlocked_user_count,
}
use bitcoin_stack_tracker.Security.Policy.{
  Vault, User, StatusClock, public_status, restrict, apply_selection, selection, people, ids_of,
  wrap_slots, text_le, set_allowed_users, test_sensitive_sensors, write_sensitive_sensors,
  finish_sensitive_sensors, set_encryption_mode, PublicStatus,
}
use bitcoin_stack_tracker.Security.Calls.{
  Call, expires, asks, marks, configures, touches, locks, locks_all, reports, allows, requests,
  exposes, encrypts, after, history, Within, Keeps,
}

is_in-put :
    (le : String → String → Bool) (x y : String) (ys : List String)
    → is_in y (put le x ys) ≡ (x == y || is_in y ys)
unfolding put
is_in-put le x y [] = refl
is_in-put le x y (z ∷ ys) = ground (arith, is_in-put le x y ys)

is_in-sorted :
    (le : String → String → Bool) (y : String) (xs : List String)
    → is_in y (sorted le xs) ≡ is_in y xs
unfolding sorted
is_in-sorted le y [] = refl
is_in-sorted le y (x ∷ xs) = ground (arith, is_in-put le x y (sorted le xs), is_in-sorted le y xs)

-- The owner is always selected.
pub is_in-selection :
    (users ids : List String) (owner : String) → is_in owner (selection users ids owner) ≡ true
unfolding selection
is_in-selection users ids owner =
    let chosen = as_set (keep (λ id. is_in id users) ids) in
    ground (
      arith,
      is_in-sorted text_le owner (add owner chosen),
      is_in-add owner owner chosen,
      eq_refl owner,
    )

module _ {V S : Type 0} (vault : Vault V S) (At : ℕ → Type 0) (May : String → Type 0)
    (P : Security V S → Type 0) (keeps : Keeps At May P) where
  expire_user_if_due-keeps :
      (now : ℕ) (u : String) (s : Security V S) → P s → P (expire_user_if_due now u s).1
  unfolding expire_user_if_due
  expire_user_if_due-keeps now u s h = ground (arith, h, keeps.ends u s h)

  expire_each-keeps :
      (clock : String → ℕ) (us : List String) (s : Security V S)
      → P s
      → P (expire_each clock us s).1
  unfolding expire_each
  expire_each-keeps clock [] s h = h
  expire_each-keeps clock (u ∷ us) s h =
      expire_each-keeps clock us (expire_user_if_due (clock u) u s).1
        (expire_user_if_due-keeps (clock u) u s h)

  asks-keeps : (now : ℕ) (u : String) (s : Security V S) → P s → P (is_user_unlocked now u s).1
  unfolding is_user_unlocked
  asks-keeps now u s h = ground (arith, h, expire_user_if_due-keeps now u s h)

  require_unlocked-keeps :
      (now : ℕ) (u : String) (s : Security V S) → P s → P (require_unlocked now u s).1
  unfolding require_unlocked require_allowed
  require_unlocked-keeps now u s h = ground (arith, h, asks-keeps now u s h)

  marks-keeps :
      (now : ℕ) (u : String) (minutes : ℕ) (s : Security V S)
      → At now
      → May u
      → P s
      → P (mark_user_unlocked now u minutes s).1
  unfolding mark_user_unlocked require_allowed
  marks-keeps now u minutes s b m h = ground (
    arith,
    h,
    λ (a : is_allowed u s ≡ true) (c : is_auto_lock_choice minutes ≡ true).
        keeps.begins now u minutes s b m a c h,
  )

  configures-keeps :
      (now later : ℕ) (u : String) (minutes : ℕ) (touch : Bool) (s : Security V S)
      → At later
      → P s
      → P (configure_user_auto_lock now later u minutes touch s).1
  unfolding configure_user_auto_lock
  configures-keeps now later u minutes touch s b h =
      let k = require_unlocked-keeps now u s h in
      ground (
        arith,
        k,
        λ (c : is_auto_lock_choice minutes ≡ true).
            keeps.sets later u minutes touch (require_unlocked now u s).1 b c k,
      )

  touches-keeps :
      (now later : ℕ) (u : String) (s : Security V S)
      → At later
      → P s
      → P (touch_user_unlock now later u s).1
  unfolding touch_user_unlock
  touches-keeps now later u s b h =
      let k = require_unlocked-keeps now u s h in
      ground (arith, k, keeps.refreshes later u (require_unlocked now u s).1 b k)

  minutes-keeps :
      (now : ℕ) (u : String) (s : Security V S) → P s → P (user_auto_lock_minutes now u s).1
  unfolding user_auto_lock_minutes
  minutes-keeps now u s h = ground (arith, h, asks-keeps now u s h)

  seconds-keeps :
      (now later : ℕ) (u : String) (s : Security V S)
      → P s
      → P (user_unlock_expires_in_seconds now later u s).1
  unfolding user_unlock_expires_in_seconds
  seconds-keeps now later u s h = ground (arith, h, asks-keeps now u s h)

  reports-keeps :
      (clock : StatusClock) (u : String) (s : Security V S) → P s → P (public_status clock u s).1
  unfolding public_status unlocked_user_count expire_unlock_sessions
  reports-keeps clock u s h =
      let s1 = (is_user_unlocked clock.unlocked_at u s).1 in
      let s2 = (user_auto_lock_minutes clock.minutes_at u s1).1 in
      let s3 = (user_unlock_expires_in_seconds clock.expires_at clock.remains_at u s2).1 in
      let k3 =
        seconds-keeps clock.expires_at clock.remains_at u s2
          (minutes-keeps clock.minutes_at u s1 (asks-keeps clock.unlocked_at u s h)) in
      ground (arith, k3, expire_each-keeps clock.counts_at s3.unlocked s3 k3)

  apply_selection-keeps :
      (selected : List String) (s : Security V S)
      → is_in s.policy.owner_user_id selected ≡ true
      → P s
      → P (apply_selection vault selected s).1
  unfolding apply_selection
  apply_selection-keeps selected s owned h =
      let kept = keeps.restricts selected s owned h in
      let plain = keeps.wraps [] (restrict selected s) kept in
      elim (Bool-cases (is_legacy s.policy.encryption_mode)) [
        | inr modern ↦ rw modern plain
        | inl legacy ↦ elim (Option-cases s.legacy_vault_key) [
          | inl e ↦ rw (legacy, e) kept
          | inr (key, e) ↦
              rw (legacy, e)
                (keeps.wraps (wrap_slots vault selected key) (restrict selected s) kept)
        ]
      ]

  allows-keeps :
      (clock : StatusClock) (users : List User) (actor : String) (ids : List String)
      (s : Security V S)
      → P s
      → P (set_allowed_users vault clock users actor ids s).1
  unfolding set_allowed_users require_owner
  allows-keeps clock users actor ids s h =
      let owner = s.policy.owner_user_id in
      let selected = selection (ids_of (people users)) ids owner in
      let kept =
        apply_selection-keeps selected s (is_in-selection (ids_of (people users)) ids owner) h in
      ground (arith, h, kept, reports-keeps clock actor (apply_selection vault selected s).1 kept)

  requests-keeps :
      (actor : String) (enabled : Bool) (s : Security V S)
      → P s
      → P (test_sensitive_sensors actor enabled s).1
  unfolding test_sensitive_sensors require_owner
  requests-keeps actor enabled s h = ground (
    arith,
    h,
    λ (e : (enabled && is_password s.policy.encryption_mode) ≡ false).
        keeps.waits (record { actor = actor; enabled = enabled }) s e h,
  )

  exposes-keeps :
      (clock : StatusClock) (s : Security V S) → P s → P (finish_sensitive_sensors clock s).1
  unfolding finish_sensitive_sensors
  exposes-keeps clock s h = go s.waiting refl
    where
      go :
          (waiting : List Exposure)
          → s.waiting ≡ waiting
          → P
              (elim waiting as (λ x. Option PublicStatus × Security V S) [
                | [] ↦ (none, s)
                | call ∷ calls ↦
                    let (status, u) =
                      public_status clock call.actor
                        (write_sensitive_sensors call.enabled (record s { waiting = calls })) in
                    (some status, u)
              ]).1
      go [] e = h
      go (call ∷ calls) e = reports-keeps clock call.actor _ (keeps.shows call calls s e h)

  pub after-keeps :
      (c : Call) (s : Security V S)
      → ((mode : EncryptionMode) → c ≡ encrypts mode → P (set_encryption_mode mode s))
      → Within At May c
      → P s
      → P (after vault c s)
  unfolding after expire_unlock_sessions
  after-keeps (expires clock) s turns w h = expire_each-keeps clock s.unlocked s h
  after-keeps (asks now u) s turns w h = asks-keeps now u s h
  after-keeps (marks now u minutes) s turns w h = marks-keeps now u minutes s w.0 w.1 h
  after-keeps (configures now later u minutes touch) s turns w h =
      configures-keeps now later u minutes touch s w h
  after-keeps (touches now later u) s turns w h = touches-keeps now later u s w h
  after-keeps (locks u) s turns w h = keeps.ends u s h
  after-keeps locks_all s turns w h = keeps.ends_all s h
  after-keeps (reports clock u) s turns w h = reports-keeps clock u s h
  after-keeps (allows clock users actor ids) s turns w h = allows-keeps clock users actor ids s h
  after-keeps (requests actor enabled) s turns w h = requests-keeps actor enabled s h
  after-keeps (exposes clock) s turns w h = exposes-keeps clock s h
  after-keeps (encrypts mode) s turns w h = turns mode refl

  pub history-keeps :
      (changes : (mode : EncryptionMode) (s : Security V S) → P s → P (set_encryption_mode mode s))
      (cs : List Call) (s : Security V S)
      → All (Within At May) cs
      → P s
      → P (history vault cs s)
  unfolding history
  history-keeps changes [] s w h = h
  history-keeps changes (c ∷ cs) s w h =
      history-keeps changes cs (after vault c s) w.1
        (after-keeps c s (λ mode e. changes mode s h) w.0 h)
