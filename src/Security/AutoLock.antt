-- ===== src/Security/AutoLock.antt =====
-- When sessions end, after any calls.
use bitcoin_stack_tracker.Common.{
  ℕ, ◌≤◌, ◌+◌, ◌*◌, Bool, true, false, Option, none, some, String, List, ◌≡◌, sym, ◌||◌, inl, inr,
  Bool-cases, Option-cases, arith, All, texts, not, ◌==◌, eq_iff, eq_refl, nat_eq, is_some, numbers,
  or_else,
}
use bitcoin_stack_tracker.Common.Dict.{lookup, get_or, lookup-insert}
use bitcoin_stack_tracker.Common.Set.{is_in, is_in-add, is_in-keep, lookup-keep_keys}
use bitcoin_stack_tracker.Security.State.{
  EncryptionMode, is_password, Security, deadline_of, lock_user, lock_all_users, expire_user_if_due,
  is_user_unlocked, minutes_long,
}
use bitcoin_stack_tracker.Security.Sessions.{
  begin_session, set_auto_lock, refresh_deadline, is_auto_lock_choice, deadline_after,
}
use bitcoin_stack_tracker.Security.Policy.{
  Vault, save, restrict, set_encryption_mode, write_sensitive_sensors,
}
use bitcoin_stack_tracker.Security.Calls.{Call, history, Within, Keeps}
use bitcoin_stack_tracker.Security.History.{history-keeps}

-- What one user's session may look like if no deadline was set after `t`: its timeout, its deadline,
-- and whether it is open.
abbrev SessionBound : ℕ → Option ℕ → Option ℕ → Bool → Type 0
SessionBound t timeout deadline open_session =
    (or_else timeout 15 ≤ 120)
    × ((d : ℕ) → deadline ≡ some d → d ≤ t + minutes_long 120)
    × (open_session ≡ true → deadline ≡ none → timeout ≡ some 0)

-- No session is set to outlast `t` by more than 120 minutes, unless its automatic lock is off.
abbrev pub IsBounded : {V S : Type 0} → ℕ → Security V S → Type 0
IsBounded t s =
    (u : String) → SessionBound t (lookup u s.timeouts) (deadline_of u s) (is_in u s.unlocked)

choice-bound : (minutes : ℕ) → is_auto_lock_choice minutes ≡ true → minutes ≤ 120
unfolding is_auto_lock_choice
choice-bound minutes h = ground arith

deadline_after-SessionBound :
    (t now minutes : ℕ) (open_session : Bool)
    → now ≤ t
    → minutes ≤ 120
    → SessionBound t (some minutes) (deadline_after now minutes) open_session
unfolding deadline_after minutes_long
deadline_after-SessionBound t now minutes open_session b m =
    (m, (λ d e. ground arith), λ _ e. ground arith)

no_session-SessionBound : (t : ℕ) → SessionBound t none none false
no_session-SessionBound t = (omega arith, (λ d e. absurd (cc)), λ e _. absurd (cc))

-- A timeout that is set keeps a deadline that is there.
set_timeout-SessionBound :
    (t minutes : ℕ) (timeout deadline : Option ℕ) (open_session : Bool)
    → minutes ≤ 120
    → is_some deadline ≡ true
    → SessionBound t timeout deadline open_session
    → SessionBound t (some minutes) deadline open_session
set_timeout-SessionBound t minutes timeout deadline open_session m there (_, d, o) =
    (m, d, λ _ e. absurd (cc))

module _ {V S : Type 0} (t : ℕ) where
  lock_user-IsBounded :
      (u : String) (s : Security V S) → IsBounded t s → IsBounded t (lock_user u s)
  unfolding lock_user deadline_of
  lock_user-IsBounded u s h v =
      let p : String → Bool = λ y. not (y == u) in
      rw
        (
          lookup-keep_keys p v s.timeouts,
          lookup-keep_keys p v s.deadlines,
          is_in-keep p v s.unlocked,
        )
        (elim (Bool-cases (v == u)) [
          | inl same ↦ rw same (no_session-SessionBound t)
          | inr differs ↦ rw differs (h v)
        ])

  restrict-IsBounded :
      (selected : List String) (s : Security V S)
      → IsBounded t s
      → IsBounded t (restrict selected s)
  unfolding restrict deadline_of
  restrict-IsBounded selected s h v =
      let p : String → Bool = λ y. is_in y selected in
      rw
        (
          lookup-keep_keys p v s.timeouts,
          lookup-keep_keys p v s.deadlines,
          is_in-keep p v s.unlocked,
        )
        (elim (Bool-cases (is_in v selected)) [
          | inl chosen ↦ rw chosen (h v)
          | inr dropped ↦ rw dropped (no_session-SessionBound t)
        ])

  begin_session-IsBounded :
      (now : ℕ) (u : String) (minutes : ℕ) (s : Security V S)
      → now ≤ t
      → minutes ≤ 120
      → IsBounded t s
      → IsBounded t (begin_session now u minutes s)
  unfolding begin_session deadline_of
  begin_session-IsBounded now u minutes s b m h v =
      rw
        (
          lookup-insert u v minutes s.timeouts,
          lookup-insert u v (deadline_after now minutes) s.deadlines,
          is_in-add u v s.unlocked,
        )
        (elim (Bool-cases (u == v)) [
          | inl same ↦ rw same (deadline_after-SessionBound t now minutes true b m)
          | inr differs ↦ rw differs (h v)
        ])

  set_auto_lock-IsBounded :
      (later : ℕ) (u : String) (minutes : ℕ) (touch : Bool) (s : Security V S)
      → later ≤ t
      → minutes ≤ 120
      → IsBounded t s
      → IsBounded t (set_auto_lock later u minutes touch s)
  unfolding set_auto_lock deadline_of
  set_auto_lock-IsBounded later u minutes touch s b m h v =
      let fresh = nat_eq minutes 0 || (touch || not (is_some (deadline_of u s))) in
      let there : fresh ≡ false → is_some (deadline_of u s) ≡ true = λ f. ground arith in
      rw (lookup-insert u v minutes s.timeouts) (elim (Bool-cases (u == v)) [
        | inl same ↦ elim (Bool-cases fresh) [
          | inl f ↦
              rw (f, lookup-insert u v (deadline_after later minutes) s.deadlines, same)
                (deadline_after-SessionBound t later minutes _ b m)
          | inr f ↦
              rw (f, same)
                (set_timeout-SessionBound t minutes (lookup v s.timeouts) (deadline_of v s) _ m
                  (rw (sym ((eq_iff u v).0 same)) (there f)) (h v))
        ]
        | inr differs ↦ elim (Bool-cases fresh) [
          | inl f ↦
              rw (f, lookup-insert u v (deadline_after later minutes) s.deadlines, differs) (h v)
          | inr f ↦ rw (f, differs) (h v)
        ]
      ])

  refresh_deadline-IsBounded :
      (later : ℕ) (u : String) (s : Security V S)
      → later ≤ t
      → IsBounded t s
      → IsBounded t (refresh_deadline later u s)
  unfolding refresh_deadline deadline_of minutes_long
  refresh_deadline-IsBounded later u s b h v =
      let timeout = get_or u 15 s.timeouts in
      let m = (h u).0 in
      elim (Bool-cases (nat_eq timeout 0)) [
        | inl off ↦ rw off (h v)
        | inr on ↦
            rw (on, lookup-insert u v (some (later + timeout * 60_000_000_000)) s.deadlines)
              (elim (Bool-cases (u == v)) [
                | inl same ↦ rw same ((h v).0, (λ d e. ground arith), λ _ e. absurd (cc))
                | inr differs ↦ rw differs (h v)
              ])
      ]

  bounded : Keeps {V = V} {S = S} (λ n. n ≤ t) (λ u. Unit) (IsBounded t)
  unfolding lock_all_users save write_sensitive_sensors deadline_of
  bounded = record {
    ends = lock_user-IsBounded;
    ends_all = λ s h u. no_session-SessionBound t;
    begins = λ now u minutes s b _ _ c h.
        begin_session-IsBounded now u minutes s b (choice-bound minutes c) h;
    sets = λ later u minutes touch s b c h.
        set_auto_lock-IsBounded later u minutes touch s b (choice-bound minutes c) h;
    refreshes = refresh_deadline-IsBounded;
    restricts = λ selected s _ h. restrict-IsBounded selected s h;
    wraps = λ slots s h. h;
    waits = λ call s _ h. h;
    shows = λ call calls s _ h. h;
  }

set_encryption_mode-IsBounded :
    {V S : Type 0} (t : ℕ) (mode : EncryptionMode) (s : Security V S)
    → IsBounded t s
    → IsBounded t (set_encryption_mode mode s)
unfolding set_encryption_mode save deadline_of
set_encryption_mode-IsBounded t mode s h u = ((h u).0, (h u).1, λ e _. absurd (cc))

-- If no call has begun or extended a session after the moment `t`, then two hours later the only
-- sessions still open under password encryption are those whose automatic lock is off.
pub idle_sessions_end :
    {V S : Type 0} (vault : Vault V S) (cs : List Call) (s : Security V S) (t now : ℕ) (u : String)
    → IsBounded t s
    → All (Within (λ n. n ≤ t) (λ v. Unit)) cs
    → t + minutes_long 120 ≤ now
    → is_password (history vault cs s).policy.encryption_mode ≡ true
    → (is_user_unlocked now u (history vault cs s)).0 ≡ true
    → lookup u (history vault cs s).timeouts ≡ some 0
unfolding is_user_unlocked expire_user_if_due lock_user
idle_sessions_end vault cs s t now u b w late p open_now =
    let r = history vault cs s in
    let (_, bound, forever) =
      history-keeps vault (λ n. n ≤ t) (λ v. Unit) (IsBounded t) (bounded t)
        (set_encryption_mode-IsBounded t) cs s w b u in
    elim (Option-cases (deadline_of u r)) [
      | inl e ↦ forever (ground (arith, e, p, open_now)) e
      | inr (d, e) ↦
          let past = bound d e in
          ground
            (arith, e, p, open_now, past, is_in-keep (λ y. not (y == u)) u r.unlocked, eq_refl u)
    ]
