-- ===== src/RateLimit/Retry.antt =====
-- What a refused caller is told, and what `clear_user` forgets.
use bitcoin_stack_tracker.Common.{
  refl, texts, or_else, ◌∙◌, ℕ, ◌+◌, ◌-◌, ◌*◌, ◌/◌, ◌≤◌, ◌<◌, ◌≡◌, List, [], ◌∷◌, length, Bool,
  ◌&&◌, ap, Option, none, some, true, false, if◌then◌else◌, arith, inl, inr, Bool-cases, ◌==◌,
  eq_refl, String,
}
use bitcoin_stack_tracker.Common.Dict.{get_or, lookup, lookup-insert_self}
use bitcoin_stack_tracker.RateLimit.{
  Key, limiter_keys, same_key_iff, Events, RateLimitResult, second, evict, decide, check,
  clear_user, cleared,
}
use bitcoin_stack_tracker.RateLimit.Window.{Ordered, Ordered-evict, length-evict-le}
use bitcoin_stack_tracker.RateLimit.Sliding.{is_admitted, decide-admits}

decide-denied :
    (limit w now : ℕ) (ts : List ℕ) (r : RateLimitResult)
    → (decide limit w now ts).0 ≡ some r
    → r.allowed ≡ false
    → (decide limit w now ts).1 ≡ ts
unfolding decide
decide-denied limit w now [] r e d = ground arith
decide-denied limit w now (t ∷ ts) r e d = ground arith

denied-retry_after :
    (limit w now t : ℕ) (ts : List ℕ) (r : RateLimitResult)
    → (decide limit w now (t ∷ ts)).0 ≡ some r
    → r.allowed ≡ false
    → (w - (now - t)) / second + 1 ≤ r.retry_after
unfolding decide
denied-retry_after limit w now t ts r e d = ground arith

-- The wait outlasts what is left of the oldest event's window, so that event goes.
evict-retry :
    (w now later t n : ℕ) (ts : List ℕ)
    → t ≤ now
    → (w - (now - t)) / second + 1 ≤ n
    → now + n * second ≤ later
    → length (evict w later (t ∷ ts)) < length (t ∷ ts)
unfolding evict
evict-retry w now later t n ts o r h =
    let gone : t + w ≤ later = omega arith in ground (arith, length-evict-le w later ts)

decide-retry :
    (limit w now later : ℕ) (ts : List ℕ) (r : RateLimitResult)
    → 0 < limit
    → Ordered now ts
    → (decide limit w now ts).0 ≡ some r
    → r.allowed ≡ false
    → now + r.retry_after * second ≤ later
    → length (evict w later ts) < length ts
unfolding decide
decide-retry limit w now later [] r pos o e d h = ground arith
decide-retry limit w now later (t ∷ ts) r pos o e d h =
    evict-retry w now later t r.retry_after ts o.0 (denied-retry_after limit w now t ts r e d) h

-- A refused caller who waits for `retry_after` seconds is admitted, if nobody else used the key
-- meanwhile and the deque was no longer than the limit.
pub retry_after_suffices :
    (limit window_seconds now later : ℕ) (key : Key) (events : Events) (r : RateLimitResult)
    → 0 < limit
    → Ordered now (get_or key [] events)
    → length (get_or key [] events) ≤ limit
    → (check now key limit window_seconds events).0 ≡ some r
    → r.allowed ≡ false
    → now + r.retry_after * second ≤ later
    → is_admitted
        (check later key limit window_seconds (check now key limit window_seconds events).1).0
      ≡ true
unfolding check
retry_after_suffices limit window_seconds now later key events r pos o b e d h =
    let w = window_seconds * second in
    let ts = evict w now (get_or key [] events) in
    let o' = Ordered-evict w now (get_or key [] events) o in
    let shorter = decide-retry limit w now later ts r pos o' e d h in
    rw
      (
        lookup-insert_self,
        decide-denied limit w now ts r e d,
        decide-admits limit w later (evict w later ts) pos,
      )
      (ground (arith, shorter, length-evict-le w now (get_or key [] events)))

lookup-clear_user :
    (entry_id user_id : String) (operation : Option String) (key : Key) (events : Events)
    → lookup key (clear_user entry_id user_id operation events)
      ≡ (if cleared entry_id user_id operation key then none else lookup key events)
unfolding clear_user
lookup-clear_user entry_id user_id operation key [] = ground arith
lookup-clear_user entry_id user_id operation key ((k, v) ∷ events) = elim (Bool-cases (k == key)) [
  | inl e ↦
      rw ((same_key_iff k key).0 e)
        (ground (arith, lookup-clear_user entry_id user_id operation key events, eq_refl key))
  | inr e ↦ ground (arith, lookup-clear_user entry_id user_id operation key events)
]

-- Whether a key is one of the user's in the portfolio, for the operation if one is named.
abbrev pub is_of_user : String → String → Option String → Key → Bool
is_of_user entry_id user_id operation key =
    key.entry_id == entry_id
    && (key.user_id == user_id && elim operation [ none ↦ true | some op ↦ key.operation == op ])

cleared-is_of_user :
    (entry_id user_id : String) (operation : Option String) (key : Key)
    → cleared entry_id user_id operation key ≡ is_of_user entry_id user_id operation key
cleared-is_of_user entry_id user_id none key = ground arith
cleared-is_of_user entry_id user_id (some op) key = refl

-- A check reads the deque of its key alone.
check-lookup :
    (now limit window_seconds : ℕ) (key : Key) (a b : Events)
    → lookup key a ≡ lookup key b
    → (check now key limit window_seconds a).0 ≡ (check now key limit window_seconds b).0
unfolding check
check-lookup now limit window_seconds key a b h =
    let w = window_seconds * second in
    ap (λ o. (decide limit w now (evict w now (or_else o []))).0) h

-- After `clear_user`, a check under a key of the user in the portfolio, and of the operation if one
-- is named, answers as on a limiter without any event; a check under any other key as before.
pub check-clear_user :
    (now limit window_seconds : ℕ) (entry_id user_id : String) (operation : Option String)
    (key : Key) (events : Events)
    → (check now key limit window_seconds (clear_user entry_id user_id operation events)).0 ≡ (
        if is_of_user entry_id user_id operation key
        then (check now key limit window_seconds []).0
        else (check now key limit window_seconds events).0)
unfolding check
check-clear_user now limit window_seconds entry_id user_id operation key events =
    let found = lookup-clear_user entry_id user_id operation key events in
    let same = cleared-is_of_user entry_id user_id operation key in
    elim (Bool-cases (is_of_user entry_id user_id operation key)) [
      | inl e ↦ rw e (
          check-lookup now limit window_seconds key (clear_user entry_id user_id operation events)
            [] (found ∙ ap (λ b. if b then none else lookup key events) (same ∙ e)))
      | inr e ↦ rw e (
          check-lookup now limit window_seconds key (clear_user entry_id user_id operation events)
            events (found ∙ ap (λ b. if b then none else lookup key events) (same ∙ e)))
    ]
