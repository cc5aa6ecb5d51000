-- ===== src/RateLimit.antt =====
-- custom_components/bitcoin_stack_tracker/rate_limit.py: the sliding-window limiter.
-- `monotonic()` is an argument, in nanoseconds; the source's float seconds are these over 10^9.
mod Window
pub mod Sliding
pub mod Retry
mod Tests
use bitcoin_stack_tracker.Common.{
  ℕ, ◌+◌, ◌-◌, ◌*◌, ◌/◌, String, Bool, true, false, Option, none, some, List, [], ◌∷◌, ◌++◌, ◌≡◌,
  ◌&&◌, not, length, leb, if◌then◌else◌, arith, Comparable, texts, ◌==◌, eq_iff, keep, ◌↔◌,
}
use Prim.Native.Nat.{max}
use bitcoin_stack_tracker.Common.Dict.{Dict, get_or, insert}

abbrev pub second : ℕ
second = 1_000_000_000

-- The tuple `(entry_id, user_id, operation)`.
pub record Key : Type 0 where
  pub entry_id : String
  pub user_id : String
  pub operation : String

abbrev pub same_key : Key → Key → Bool
same_key a b = a.entry_id == b.entry_id && (a.user_id == b.user_id && a.operation == b.operation)

pub same_key_iff : (a b : Key) → (same_key a b ≡ true) ↔ (a ≡ b)
same_key_iff a b = ground (
  arith,
  eq_iff a.entry_id b.entry_id,
  eq_iff a.user_id b.user_id,
  eq_iff a.operation b.operation,
)

instance abbrev pub limiter_keys : Comparable Key
limiter_keys = record { same = same_key; same_iff = same_key_iff }

pub record RateLimitResult : Type 0 where
  pub allowed : Bool
  pub retry_after : ℕ
  pub remaining : ℕ

-- `self._events`: the deques, each with its oldest event first.
abbrev pub Events : Type 0
Events = Dict Key (List ℕ)

-- `while events and events[0] <= cutoff: events.popleft()`, where the cutoff is `now - window`.
pub evict : ℕ → ℕ → List ℕ → List ℕ
evict window now [] = []
evict window now (t ∷ ts) = if leb (t + window) now then evict window now ts else t ∷ ts

-- What `check` returns, and the deque it leaves. `none` is the IndexError of `events[0]`, which an
-- empty deque raises under the limit 0.
pub decide : ℕ → ℕ → ℕ → List ℕ → Option RateLimitResult × List ℕ
decide limit window now [] =
    if leb limit 0
    then (none, [])
    else (some (record { allowed = true; retry_after = 0; remaining = limit - 1 }), now ∷ [])
decide limit window now (t ∷ ts) =
    if leb limit (length (t ∷ ts))
    then (
      some (record {
        allowed = false;
        retry_after = max 1 ((window - (now - t)) / second + 1);
        remaining = 0;
      }),
      t ∷ ts,
    )
    else (
      some (record {
        allowed = true;
        retry_after = 0;
        remaining = limit - length ((t ∷ ts) ++ now ∷ []);
      }),
      (t ∷ ts) ++ now ∷ [],
    )

-- `self._events` is a defaultdict: a missing key has an empty deque, and gets one.
unfoldable pub check : ℕ → Key → ℕ → ℕ → Events → Option RateLimitResult × Events
unfolding evict decide
check now key limit window_seconds events =
    let window = window_seconds * second in
    let (result, left) = decide limit window now (evict window now (get_or key [] events)) in
    (result, insert key left events)

-- The keys of `clear_user`; `none` is every operation.
abbrev pub cleared : String → String → Option String → Key → Bool
cleared entry_id user_id none key = key.entry_id == entry_id && key.user_id == user_id
cleared entry_id user_id (some op) key =
    key.entry_id == entry_id && (key.user_id == user_id && key.operation == op)

pub clear_user : String → String → Option String → Events → Events
clear_user entry_id user_id operation = keep (λ e. not (cleared entry_id user_id operation e.0))
