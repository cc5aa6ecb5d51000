-- ===== src/RateLimit/Tests.antt =====
-- Runs of the limiter, and its theorems at concrete inputs.
use bitcoin_stack_tracker.Common.{
  ℕ, ◌*◌, ◌≡◌, refl, List, [], ◌∷◌, none, some, true, false, arith, ltb,
}
use bitcoin_stack_tracker.Common.Dict.{get_or}
use bitcoin_stack_tracker.RateLimit.{Key, limiter_keys, Events, second, check, clear_user}
use bitcoin_stack_tracker.RateLimit.Window.{in_window}
use bitcoin_stack_tracker.RateLimit.Sliding.{Tracks, noted, is_admitted, check_sliding, run}
use bitcoin_stack_tracker.RateLimit.Retry.{retry_after_suffices, check-clear_user}

abbrev unlock : Key
unlock = record { entry_id = "p"; user_id = "u"; operation = "unlock" }

abbrev export_key : Key
export_key = record { entry_id = "p"; user_id = "u"; operation = "export" }

abbrev two_events : Events
two_events = (unlock, 1 ∷ 2 ∷ []) ∷ []

check_third :
    (check 3 unlock 2 10 two_events).0
    ≡ some (record { allowed = false; retry_after = 10; remaining = 0 })
unfolding check
check_third = refl

abbrev requests : List (ℕ × Key)
requests = (1, unlock) ∷ (2, export_key) ∷ (2, unlock) ∷ (3, unlock) ∷ []

run-requests : (run 2 10 unlock requests [] []).0 ≡ 1 ∷ 2 ∷ []
unfolding run check
run-requests = refl

check_sliding_example :
    let (r, events') = check 3 unlock 2 10 two_events in
    (is_admitted r ≡ ltb (in_window (10 * second) 3 (1 ∷ 2 ∷ [])) 2)
    × Tracks (10 * second) 3 (noted r 3 (1 ∷ 2 ∷ [])) (get_or unlock [] events')
check_sliding_example =
    check_sliding 2 3 2 10 unlock (1 ∷ 2 ∷ []) two_events (omega arith) (omega arith)
      (record { ordered = omega arith; same = λ u p. refl })

retry_after_suffices_example :
    is_admitted (check 10_000_000_003 unlock 2 10 (check 3 unlock 2 10 two_events).1).0 ≡ true
retry_after_suffices_example =
    retry_after_suffices 2 10 3 10_000_000_003 unlock two_events
      (record { allowed = false; retry_after = 10; remaining = 0 }) (omega arith) (omega arith)
      (omega arith) check_third refl (omega arith)

-- The third check under the key is admitted once the user's events are forgotten.
check-clear_user_example :
    (check 3 unlock 2 10 (clear_user "p" "u" none two_events)).0 ≡ (check 3 unlock 2 10 []).0
check-clear_user_example = check-clear_user 3 2 10 "p" "u" none unlock two_events
