-- ===== src/Security/Access.antt =====
-- Who has access, after any calls.
use bitcoin_stack_tracker.Common.{
  ℕ, true, String, List, [], ◌∷◌, ◌≡◌, sym, inl, inr, Bool-cases, arith, All, texts, not, ◌==◌,
  eq_iff,
}
use bitcoin_stack_tracker.Common.Set.{is_in, is_in-add, is_in-keep}
use bitcoin_stack_tracker.Security.State.{
  EncryptionMode, Security, is_allowed, lock_user, lock_all_users,
}
use bitcoin_stack_tracker.Security.Sessions.{begin_session, set_auto_lock, refresh_deadline}
use bitcoin_stack_tracker.Security.Policy.{
  Vault, save, restrict, set_encryption_mode, write_sensitive_sensors,
}
use bitcoin_stack_tracker.Security.Calls.{
  Call, expires, asks, marks, configures, touches, locks, locks_all, reports, allows, requests,
  exposes, encrypts, history, Within, Keeps,
}
use bitcoin_stack_tracker.Security.History.{history-keeps}

-- The owner is on the allowlist, and sessions belong to users on it.
abbrev pub IsGuarded : {V S : Type 0} → Security V S → Type 0
IsGuarded s =
    (is_in s.policy.owner_user_id s.policy.allowed_user_ids ≡ true)
    × ((u : String) → is_in u s.unlocked ≡ true → is_allowed u s ≡ true)

abbrev pub Any : {A : Type 0} → A → Type 0
Any a = Unit

pub Within-Any : (c : Call) → Within Any Any c
Within-Any (marks now u minutes) = (tt, tt)
Within-Any (configures now later u minutes touch) = tt
Within-Any (touches now later u) = tt
Within-Any (expires clock) = tt
Within-Any (asks now u) = tt
Within-Any (locks u) = tt
Within-Any locks_all = tt
Within-Any (reports clock u) = tt
Within-Any (allows clock users actor ids) = tt
Within-Any (requests actor enabled) = tt
Within-Any (exposes clock) = tt
Within-Any (encrypts mode) = tt

All-Within-Any : (cs : List Call) → All (Within Any Any) cs
All-Within-Any [] = tt
All-Within-Any (c ∷ cs) = (Within-Any c, All-Within-Any cs)

module _ {V S : Type 0} where
  restrict-IsGuarded :
      (selected : List String) (s : Security V S)
      → is_in s.policy.owner_user_id selected ≡ true
      → IsGuarded s
      → IsGuarded (restrict selected s)
  unfolding restrict is_allowed
  restrict-IsGuarded selected s owned (o, a) =
      (owned, λ u h. ground (arith, h, a u, is_in-keep (λ id. is_in id selected) u s.unlocked))

  begin_session-IsGuarded :
      (now : ℕ) (u : String) (minutes : ℕ) (s : Security V S)
      → is_allowed u s ≡ true
      → IsGuarded s
      → IsGuarded (begin_session now u minutes s)
  unfolding begin_session is_allowed
  begin_session-IsGuarded now u minutes s on_list (o, a) = (
    o,
    λ v h. elim (Bool-cases (u == v)) [
      | inl same ↦ rw (sym ((eq_iff u v).0 same)) on_list
      | inr differs ↦ a v (ground (arith, h, differs, is_in-add u v s.unlocked))
    ],
  )

  guarded : Keeps {V = V} {S = S} Any Any IsGuarded
  unfolding lock_user lock_all_users set_auto_lock refresh_deadline save write_sensitive_sensors
      is_allowed
  guarded = record {
    ends = λ u s (o, a).
        (o, λ v h. a v (ground (arith, h, is_in-keep (λ y. not (y == u)) v s.unlocked)));
    ends_all = λ s (o, a). (o, λ v h. absurd (cc));
    begins = λ now u minutes s _ _ on_list _ h. begin_session-IsGuarded now u minutes s on_list h;
    sets = λ later u minutes touch s _ _ h. h;
    refreshes = λ later u s _ h. h;
    restricts = restrict-IsGuarded;
    wraps = λ slots s h. h;
    waits = λ call s _ h. h;
    shows = λ call calls s _ h. h;
  }

  set_encryption_mode-IsGuarded :
      (mode : EncryptionMode) (s : Security V S)
      → IsGuarded s
      → IsGuarded (set_encryption_mode mode s)
  unfolding set_encryption_mode save is_allowed
  set_encryption_mode-IsGuarded mode s (o, a) = (o, λ v h. absurd (cc))

  -- After any calls, the owner is on the allowlist, and every open session belongs to a user who is
  -- on it, if both held at first.
  pub history-IsGuarded :
      (vault : Vault V S) (cs : List Call) (s : Security V S)
      → IsGuarded s
      → IsGuarded (history vault cs s)
  history-IsGuarded vault cs s h =
      history-keeps vault Any Any IsGuarded guarded set_encryption_mode-IsGuarded cs s
        (All-Within-Any cs) h
