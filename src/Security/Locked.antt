-- ===== src/Security/Locked.antt =====
-- A locked user stays locked.
use bitcoin_stack_tracker.Common.{
  ℕ, true, false, String, List, ◌≡◌, ◌≢◌, refl, arith, All, texts, not, ◌==◌, eq_iff, eq_refl,
}
use bitcoin_stack_tracker.Common.Set.{is_in, is_in-add, is_in-keep}
use bitcoin_stack_tracker.Security.State.{
  EncryptionMode, is_password, Security, lock_user, lock_all_users, expire_user_if_due,
  is_user_unlocked,
}
use bitcoin_stack_tracker.Security.Sessions.{begin_session, set_auto_lock, refresh_deadline}
use bitcoin_stack_tracker.Security.Policy.{
  Vault, save, restrict, set_encryption_mode, write_sensitive_sensors,
}
use bitcoin_stack_tracker.Security.Calls.{Call, history, Within, Keeps}
use bitcoin_stack_tracker.Security.History.{history-keeps}

module _ {V S : Type 0} (u : String) where
  IsClosed : Security V S → Type 0
  IsClosed s = is_in u s.unlocked ≡ false

  closed : Keeps {V = V} {S = S} (λ n. Unit) (λ v. v ≢ u) IsClosed
  unfolding IsClosed lock_user lock_all_users begin_session set_auto_lock refresh_deadline restrict
      save write_sensitive_sensors
  closed = record {
    ends = λ v s h. ground (arith, h, is_in-keep (λ y. not (y == v)) u s.unlocked);
    ends_all = λ s h. refl;
    begins = λ now v minutes s _ differs _ _ h.
        ground (arith, h, differs, eq_iff v u, is_in-add v u s.unlocked);
    sets = λ later v minutes touch s _ _ h. h;
    refreshes = λ later v s _ h. h;
    restricts =
        λ selected s _ h. ground (arith, h, is_in-keep (λ y. is_in y selected) u s.unlocked);
    wraps = λ slots s h. h;
    waits = λ call s _ h. h;
    shows = λ call calls s _ h. h;
  }

  lock_user-IsClosed : (s : Security V S) → IsClosed (lock_user u s)
  unfolding IsClosed lock_user
  lock_user-IsClosed s = ground (arith, is_in-keep (λ y. not (y == u)) u s.unlocked, eq_refl u)

set_encryption_mode-IsClosed :
    {V S : Type 0} (u : String) (mode : EncryptionMode) (s : Security V S)
    → IsClosed u s
    → IsClosed u (set_encryption_mode mode s)
unfolding IsClosed set_encryption_mode save
set_encryption_mode-IsClosed u mode s h = refl

-- After `lock_user`, no calls but `mark_user_unlocked` for this very user open the vault to the user
-- again, at any moment, while the encryption is by password.
pub lock_user_lasts :
    {V S : Type 0} (vault : Vault V S) (u : String) (cs : List Call) (s : Security V S) (now : ℕ)
    → All (Within (λ n. Unit) (λ v. v ≢ u)) cs
    → is_password (history vault cs (lock_user u s)).policy.encryption_mode ≡ true
    → (is_user_unlocked now u (history vault cs (lock_user u s))).0 ≡ false
unfolding is_user_unlocked expire_user_if_due IsClosed
lock_user_lasts vault u cs s now w p =
    let r = history vault cs (lock_user u s) in
    let shut : is_in u r.unlocked ≡ false =
      history-keeps vault (λ n. Unit) (λ v. v ≢ u) (IsClosed u) (closed u)
        (set_encryption_mode-IsClosed u) cs (lock_user u s) w (lock_user-IsClosed u s) in
    ground (arith, p, shut)
