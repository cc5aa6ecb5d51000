-- ===== src/RateLimit/Sliding.antt =====
-- What the limiter promises: it admits by the number of admitted events in the sliding window.
use bitcoin_stack_tracker.Common.{
  ℕ, ◌*◌, ◌≤◌, ◌<◌, ◌≡◌, List, [], ◌∷◌, ◌++◌, length, ltb, leb, Option, none, some, Bool, false,
  if◌then◌else◌, arith, inl, inr, Bool-cases, ◌==◌,
}
use bitcoin_stack_tracker.Common.Dict.{get_or, lookup-insert_self}
use bitcoin_stack_tracker.RateLimit.{
  Key, limiter_keys, Events, RateLimitResult, second, evict, decide, check,
}
use bitcoin_stack_tracker.RateLimit.Window.{
  in_window, Ordered, Ordered-later, Ordered-push, Ordered-evict, in_window-evict, length-evict,
  in_window-append,
}

-- The deque `ts` stands, for the window `w`, for the history `log` of what was admitted up to `now`.
pub record Tracks (w now : ℕ) (log ts : List ℕ) : Type 0 where
  pub ordered : Ordered now ts
  pub same : (later : ℕ) → now ≤ later → in_window w later log ≡ in_window w later ts

-- The history after a decision.
abbrev pub noted : Option RateLimitResult → ℕ → List ℕ → List ℕ
noted none now log = log
noted (some r) now log = if r.allowed then log ++ now ∷ [] else log

abbrev pub is_admitted : Option RateLimitResult → Bool
is_admitted none = false
is_admitted (some r) = r.allowed

Tracks-evict :
    (w now later : ℕ) (log ts : List ℕ)
    → now ≤ later
    → Tracks w now log ts
    → Tracks w later log (evict w later ts)
Tracks-evict w now later log ts h t = record {
  ordered = Ordered-evict w later ts (Ordered-later now later ts h t.ordered);
  same = λ u p. omega (arith, t.same u, in_window-evict w later u ts p);
}

Tracks-push :
    (w now : ℕ) (log ts : List ℕ)
    → Tracks w now log ts
    → Tracks w now (log ++ now ∷ []) (ts ++ now ∷ [])
Tracks-push w now log ts t = record {
  ordered = Ordered-push now ts t.ordered;
  same = λ u p.
      omega (
        arith,
        t.same u p,
        in_window-append w u log (now ∷ []),
        in_window-append w u ts (now ∷ []),
      );
}

pub decide-admits :
    (limit w now : ℕ) (ts : List ℕ)
    → 0 < limit
    → is_admitted (decide limit w now ts).0 ≡ ltb (length ts) limit
unfolding decide
decide-admits limit w now [] h = ground arith
decide-admits limit w now (t ∷ ts) h = ground arith

decide-Tracks :
    (limit w now : ℕ) (log ts : List ℕ)
    → Tracks w now log ts
    → let (r, left) = decide limit w now ts in Tracks w now (noted r now log) left
unfolding decide
decide-Tracks limit w now log [] t = elim (Bool-cases (leb limit 0)) [
  | inl e ↦ rw e t
  | inr e ↦ rw e (Tracks-push w now log [] t)
]
decide-Tracks limit w now log (u ∷ ts) t = elim (Bool-cases (leb limit (length (u ∷ ts)))) [
  | inl e ↦ rw e t
  | inr e ↦ rw e (Tracks-push w now log (u ∷ ts) t)
]

-- A check under a positive limit answers; it admits exactly when fewer than `limit` events were
-- admitted in the window that ends now, and the deque it leaves stands for the history with the
-- event added if it was admitted.
pub check_sliding :
    (before now limit window_seconds : ℕ) (key : Key) (log : List ℕ) (events : Events)
    → 0 < limit
    → before ≤ now
    → Tracks (window_seconds * second) before log (get_or key [] events)
    → let (r, events') = check now key limit window_seconds events in
      (is_admitted r ≡ ltb (in_window (window_seconds * second) now log) limit)
      × Tracks (window_seconds * second) now (noted r now log) (get_or key [] events')
unfolding check
check_sliding before now limit window_seconds key log events pos h t =
    let w = window_seconds * second in
    let ts = get_or key [] events in
    let u = Tracks-evict w before now log ts h t in
    (
      rw (
        decide-admits limit w now (evict w now ts) pos,
        length-evict w now ts (Ordered-later before now ts h t.ordered),
        t.same now h,
      ),
      rw lookup-insert_self (decide-Tracks limit w now log (evict w now ts) u),
    )

-- A run of checks under one limit and one window, `(now, key)` each: the times at which `key` was
-- admitted, and the limiter at the end.
unfoldable pub run : ℕ → ℕ → Key → List (ℕ × Key) → List ℕ → Events → List ℕ × Events
run limit window_seconds key [] log events = (log, events)
run limit window_seconds key ((now, k) ∷ rest) log events =
    let (r, events') = check now k limit window_seconds events in
    run limit window_seconds key rest (if k == key then noted r now log else log) events'

-- The clock does not run backwards, from `before` on and up to `final`.
abbrev pub Monotonic : ℕ → List (ℕ × Key) → ℕ → Type 0
Monotonic before [] final = before ≤ final
Monotonic before ((now, k) ∷ rest) final = (before ≤ now) × Monotonic now rest final

Monotonic-le :
    (before : ℕ) (rest : List (ℕ × Key)) (final : ℕ) → Monotonic before rest final → before ≤ final
Monotonic-le before [] final h = h
Monotonic-le before ((now, k) ∷ rest) final h = omega (arith, h.0, Monotonic-le now rest final h.1)

module _ (limit window_seconds : ℕ) (key : Key) (pos : 0 < limit) where
  abbrev window : ℕ
  window = window_seconds * second
