-- ===== src/Security/Exposure.antt =====
-- When sensitive entities stay hidden under password encryption. The test of
-- `async_set_sensitive_sensors` comes before the lock, its write under it.
use mathlib.Core.Path.{subst}
use bitcoin_stack_tracker.Common.{
  Bool, true, false, List, [], ◌∷◌, ◌++◌, ◌≡◌, refl, sym, ap, ◌∙◌, ◌||◌, arith,
}
use bitcoin_stack_tracker.Security.State.{
  Exposure, EncryptionMode, is_password, Security, lock_user, lock_all_users,
}
use bitcoin_stack_tracker.Security.Sessions.{begin_session, set_auto_lock, refresh_deadline}
use bitcoin_stack_tracker.Security.Policy.{
  Vault, save, restrict, set_encryption_mode, write_sensitive_sensors,
}
use bitcoin_stack_tracker.Security.Calls.{Call, encrypts, after, history, Keeps}
use bitcoin_stack_tracker.Security.History.{after-keeps}
use bitcoin_stack_tracker.Security.Access.{Any, Within-Any}

-- Whether a call that waits will expose sensitive entities.
abbrev pub may_expose : List Exposure → Bool
may_expose [] = false
may_expose (call ∷ calls) = call.enabled || may_expose calls

-- With password encryption no sensitive entities are exposed, and no call waits to expose them.
abbrev pub IsHidden : {V S : Type 0} → Security V S → Type 0
IsHidden s =
    is_password s.policy.encryption_mode ≡ true
    → (s.policy.expose_sensitive_sensors ≡ false) × (may_expose s.waiting ≡ false)

-- Password encryption does not begin while a call waits to expose sensitive entities.
abbrev pub CalmCall : {V S : Type 0} → Call → Security V S → Type 0
CalmCall (encrypts mode) s = is_password mode ≡ true → may_expose s.waiting ≡ false
CalmCall _ s = Unit

unfoldable pub IsCalm : {V S : Type 0} → Vault V S → List Call → Security V S → Type 0
unfolding after
IsCalm vault [] s = Unit
IsCalm vault (c ∷ cs) s = CalmCall c s × IsCalm vault cs (after vault c s)

may_expose-snoc :
    (calls : List Exposure) (call : Exposure)
    → may_expose (calls ++ call ∷ []) ≡ (may_expose calls || call.enabled)
may_expose-snoc [] call = ground arith
may_expose-snoc (c ∷ calls) call = ground (arith, may_expose-snoc calls call)

module _ {V S : Type 0} where
  hidden : Keeps {V = V} {S = S} Any Any IsHidden
  unfolding lock_user lock_all_users set_auto_lock refresh_deadline begin_session restrict save
      write_sensitive_sensors
  hidden = record {
    ends = λ u s h. h;
    ends_all = λ s h. h;
    begins = λ now u minutes s _ _ _ _ h. h;
    sets = λ later u minutes touch s _ _ h. h;
    refreshes = λ later u s _ h. h;
    restricts = λ selected s _ h. h;
    wraps = λ slots s h. h;
    waits =
        λ call s e h p. ((h p).0, ground (arith, e, p, (h p).1, may_expose-snoc s.waiting call));
    shows = λ call calls s e h p.
        let quiet : may_expose (call ∷ calls) ≡ false = ap may_expose (sym e) ∙ (h p).1 in
        (ground (arith, quiet), ground (arith, quiet));
  }

  set_encryption_mode-IsHidden :
      (mode : EncryptionMode) (s : Security V S)
      → (is_password mode ≡ true → may_expose s.waiting ≡ false)
      → IsHidden (set_encryption_mode mode s)
  unfolding set_encryption_mode save
  set_encryption_mode-IsHidden mode s calm p = (rw p refl, calm p)

  after-IsHidden :
      (vault : Vault V S) (c : Call) (s : Security V S)
      → CalmCall c s
      → IsHidden s
      → IsHidden (after vault c s)
  after-IsHidden vault c s calm h =
      after-keeps vault Any Any IsHidden hidden c s
        (λ mode e. set_encryption_mode-IsHidden mode s (turned mode e calm)) (Within-Any c) h
    where
      turned :
          (mode : EncryptionMode)
          → c ≡ encrypts mode
          → CalmCall c s
          → is_password mode ≡ true
          → may_expose s.waiting ≡ false
      turned mode e k = subst (λ x. CalmCall x s) e k

  -- After any calls of which none begins password encryption while a call waits to expose sensitive
  -- entities, these are not exposed under password encryption, and no call waits to expose them, if
  -- this held at first.
  pub history-IsHidden :
      (vault : Vault V S) (cs : List Call) (s : Security V S)
      → IsCalm vault cs s
      → IsHidden s
      → IsHidden (history vault cs s)
  unfolding history IsCalm
  history-IsHidden vault [] s calm h = h
  history-IsHidden vault (c ∷ cs) s calm h =
      history-IsHidden vault cs (after vault c s) calm.1 (after-IsHidden vault c s calm.0 h)
