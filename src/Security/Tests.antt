-- ===== src/Security/Tests.antt =====
-- A vault with a password, and the theorems at concrete inputs.
use bitcoin_stack_tracker.Common.{
  ℕ, true, false, none, some, List, [], ◌∷◌, ◌≡◌, refl, arith, texts,
}
use bitcoin_stack_tracker.Common.Dict.{lookup}
use bitcoin_stack_tracker.Security.State.{
  deadline_of, encryption_password, encryption_none, is_password, Security, is_user_unlocked,
  lock_user, minutes_long, error, value_error,
}
use bitcoin_stack_tracker.Security.Policy.{Vault, User, StatusClock, test_sensitive_sensors}
use bitcoin_stack_tracker.Security.Calls.{
  Call, marks, asks, allows, requests, exposes, encrypts, after, history,
}
use bitcoin_stack_tracker.Security.Exposure.{IsHidden, IsCalm, history-IsHidden}
use bitcoin_stack_tracker.Security.Access.{IsGuarded, history-IsGuarded}
use bitcoin_stack_tracker.Security.AutoLock.{IsBounded, idle_sessions_end}
use bitcoin_stack_tracker.Security.Locked.{lock_user_lasts}

abbrev vault : Vault ℕ ℕ
vault = record { wrap = λ u key. key }

abbrev closed_vault : Security ℕ ℕ
closed_vault = record {
  policy = record {
    owner_user_id = "alice";
    allowed_user_ids = "alice" ∷ "bob" ∷ [];
    expose_sensitive_sensors = false;
    encryption_mode = encryption_password;
    key_slots = [];
  };
  stored = record {
    owner_user_id = "alice";
    allowed_user_ids = "alice" ∷ "bob" ∷ [];
    expose_sensitive_sensors = false;
    encryption_mode = encryption_password;
    key_slots = [];
  };
  legacy_vault_key = none;
  unlocked = [];
  timeouts = [];
  deadlines = [];
  waiting = [];
}

abbrev clock : StatusClock
clock = record {
  unlocked_at = 5;
  minutes_at = 5;
  expires_at = 5;
  remains_at = 5;
  counts_at = λ u. 5;
}

abbrev alice : User
alice = record { id = "alice"; is_owner = true; is_admin = true; system_generated = false }

-- Both unlock; bob's session ends by its deadline, alice's has none, and bob is not selected again.
abbrev calls : List Call
calls = marks 1 "alice" 0 ∷ marks 2 "bob" 15 ∷ requests "alice" true ∷ exposes clock ∷ []

run_calls :
    ((is_user_unlocked 3 "bob" (history vault calls closed_vault)).0 ≡ true)
    × ((is_user_unlocked (minutes_long 16) "bob" (history vault calls closed_vault)).0 ≡ false)
    × ((is_user_unlocked (minutes_long 999) "alice" (history vault calls closed_vault)).0 ≡ true)
    × ((test_sensitive_sensors "alice" true closed_vault).0 ≡ error value_error)
    × ((history vault
          (allows clock (alice ∷ []) "alice" [] ∷ [])
          (history vault calls closed_vault)).unlocked
        ≡ "alice" ∷ [])
unfolding history is_user_unlocked minutes_long test_sensitive_sensors
run_calls = (refl, refl, refl, refl, refl)

closed_vault-IsGuarded : IsGuarded closed_vault
closed_vault-IsGuarded = (refl, λ u h. absurd (cc))

closed_vault-IsBounded : IsBounded 2 closed_vault
unfolding minutes_long deadline_of
closed_vault-IsBounded u = (omega arith, (λ d e. absurd (cc)), λ e _. absurd (cc))

-- The owner turns the sensors on in an open vault, and then encrypts it by password.
abbrev open_vault : Security ℕ ℕ
open_vault = record closed_vault {
  policy = record closed_vault.policy { encryption_mode = encryption_none };
}

abbrev in_turn : List Call
in_turn = requests "alice" true ∷ exposes clock ∷ encrypts encryption_password ∷ []

in_turn-IsCalm : IsCalm vault in_turn open_vault
unfolding IsCalm after
in_turn-IsCalm = (tt, (tt, ((λ e. refl), tt)))

open_vault-IsHidden : IsHidden open_vault
unfolding is_password
open_vault-IsHidden e = absurd (cc)

history-IsHidden_example : IsHidden (history vault in_turn open_vault)
history-IsHidden_example =
    history-IsHidden vault in_turn open_vault in_turn-IsCalm open_vault-IsHidden

run_in_turn : (history vault in_turn open_vault).policy.expose_sensitive_sensors ≡ false
unfolding history
run_in_turn = refl

-- The mode changes between the test and the write: a vault with a password exposes its sensors.
run_between :
    let s =
      history vault
        (requests "alice" true ∷ encrypts encryption_password ∷ exposes clock ∷ [])
        open_vault in
    (s.policy.encryption_mode ≡ encryption_password) × (s.stored.expose_sensitive_sensors ≡ true)
unfolding history
run_between = (refl, refl)

history-IsGuarded_example : IsGuarded (history vault calls closed_vault)
history-IsGuarded_example = history-IsGuarded vault calls closed_vault closed_vault-IsGuarded

idle_sessions_end_example : lookup "alice" (history vault calls closed_vault).timeouts ≡ some 0
unfolding history is_user_unlocked minutes_long
idle_sessions_end_example =
    idle_sessions_end vault calls closed_vault 2 (minutes_long 121) "alice" closed_vault-IsBounded
      ((omega arith, tt), ((omega arith, tt), (tt, (tt, tt)))) (omega arith) refl refl

lock_user_lasts_example :
    (is_user_unlocked 9 "bob" (
      history vault
        (asks 4 "bob" ∷ marks 4 "alice" 15 ∷ [])
        (lock_user "bob" (history vault calls closed_vault)))).0
    ≡ false
unfolding history is_user_unlocked lock_user
lock_user_lasts_example =
    lock_user_lasts vault "bob" (asks 4 "bob" ∷ marks 4 "alice" 15 ∷ [])
      (history vault calls closed_vault) 9 (tt, ((tt, λ e. absurd (cc)), tt)) refl
