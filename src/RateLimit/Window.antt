-- ===== src/RateLimit/Window.antt =====
-- The deque after eviction holds exactly the admitted events of the window.
use bitcoin_stack_tracker.Common.{
  ℕ, ◌+◌, ◌≤◌, ◌<◌, ◌≡◌, refl, List, [], ◌∷◌, ◌++◌, length, ltb, leb, if◌then◌else◌, arith, All,
  All-append, inl, inr, Bool-cases, sum_of, sum_of-append,
}
use bitcoin_stack_tracker.RateLimit.{evict}

-- How many of the events at the times `ts` lie in the window that ends at `now`.
abbrev pub in_window : ℕ → ℕ → List ℕ → ℕ
in_window window now ts = sum_of (λ t. if ltb now (t + window) then 1 else 0) ts

-- Oldest first, none later than `now`.
abbrev pub Ordered : ℕ → List ℕ → Type 0
Ordered now [] = Unit
Ordered now (t ∷ ts) = (t ≤ now) × All (λ u. t ≤ u) ts × Ordered now ts

pub Ordered-later : (a b : ℕ) (ts : List ℕ) → a ≤ b → Ordered a ts → Ordered b ts
Ordered-later a b [] h o = tt
Ordered-later a b (t ∷ ts) h (p, q, r) = (omega arith, q, Ordered-later a b ts h r)

All-le_now :
    (a t : ℕ) (ts : List ℕ) → Ordered a ts → t ≤ a → All (λ u. t ≤ u) ts → All (λ u. u ≤ a) ts
All-le_now a t [] o h q = tt
All-le_now a t (u ∷ ts) o h q = (o.0, All-le_now a t ts o.2 h q.1)

pub Ordered-push : (now : ℕ) (ts : List ℕ) → Ordered now ts → Ordered now (ts ++ now ∷ [])
Ordered-push now [] o = omega arith
Ordered-push now (t ∷ ts) (p, q, r) =
    (p, All-append (λ u. t ≤ u) ts (now ∷ []) q (p, tt), Ordered-push now ts r)

pub Ordered-evict : (w now : ℕ) (ts : List ℕ) → Ordered now ts → Ordered now (evict w now ts)
unfolding evict
Ordered-evict w now [] o = tt
Ordered-evict w now (t ∷ ts) o = elim (Bool-cases (leb (t + w) now)) [
  | inl old ↦ rw old (Ordered-evict w now ts o.2)
  | inr new ↦ rw new o
]

-- Evicting drops no event of the window, now or later.
pub in_window-evict :
    (w now later : ℕ) (ts : List ℕ)
    → now ≤ later
    → in_window w later (evict w now ts) ≡ in_window w later ts
unfolding evict
in_window-evict w now later [] h = refl
in_window-evict w now later (t ∷ ts) h = ground (arith, in_window-evict w now later ts h)

in_window-All :
    (w now t : ℕ) (ts : List ℕ) → now < t + w → All (λ u. t ≤ u) ts → in_window w now ts ≡ length ts
in_window-All w now t [] h a = refl
in_window-All w now t (u ∷ ts) h a = ground (arith, in_window-All w now t ts h a.1)

-- After the eviction every event left is one of the window.
pub length-evict :
    (w now : ℕ) (ts : List ℕ) → Ordered now ts → length (evict w now ts) ≡ in_window w now ts
unfolding evict
length-evict w now [] o = refl
length-evict w now (t ∷ ts) (p, q, r) =
    ground (arith, length-evict w now ts r, in_window-All w now t ts)

pub in_window-append :
    (w now : ℕ) (xs ys : List ℕ)
    → in_window w now (xs ++ ys) ≡ in_window w now xs + in_window w now ys
in_window-append w now xs ys = sum_of-append (λ t. if ltb now (t + w) then 1 else 0) xs ys

pub length-evict-le : (w now : ℕ) (ts : List ℕ) → length (evict w now ts) ≤ length ts
unfolding evict
length-evict-le w now [] = omega arith
length-evict-le w now (t ∷ ts) = ground (arith, length-evict-le w now ts)

-- No window holds more of the events than there are.
pub in_window-le_length : (w now : ℕ) (ts : List ℕ) → in_window w now ts ≤ length ts
in_window-le_length w now [] = omega arith
in_window-le_length w now (t ∷ ts) = ground (arith, in_window-le_length w now ts)
