-- ===== src/Fifo/Drain/Loop.antt =====
-- The loop ends by its test, and keeps what every lot that is used keeps.
use Prim.Native.Nat.{min}
use bitcoin_stack_tracker.Common.{
  ℕ, zero, suc, ◌+◌, ◌-◌, ◌≤◌, ◌<◌, ◌≡◌, refl, some, List, [], ◌∷◌, true, false, inl, inr,
  Bool-cases, arith, leb, length, get_elem?, set, sum_of,
}
use bitcoin_stack_tracker.Fifo.Types.{Lot}
use bitcoin_stack_tracker.Fifo.Drain.{Drain, drain_lot, drain_test, drain_round, drain_loop, drain}

pub length-set {ℓ} : {A : Type ℓ} (xs : List A) (i : ℕ) (v : A) → length (set xs i v) ≡ length xs
length-set [] i v = refl
length-set (x ∷ xs) zero v = refl
length-set (x ∷ xs) (suc i) v = omega (arith, length-set xs i v)

get_elem?-some {ℓ} :
    {A : Type ℓ} (xs : List A) (i : ℕ) → i < length xs → (x : A) × (get_elem? xs i ≡ some x)
get_elem?-some [] i h = absurd (omega arith)
get_elem?-some (x ∷ xs) zero h = (x, refl)
get_elem?-some (x ∷ xs) (suc i) h = get_elem?-some xs i (omega arith)

-- What the lots hold together.
abbrev pub held : {D : Type 0} → List (Lot D) → ℕ
held lots = sum_of (λ l. l.remaining_btc) lots

pub held-set :
    {D : Type 0} (lots : List (Lot D)) (i n : ℕ) (lot : Lot D)
    → get_elem? lots i ≡ some lot
    → held (set lots i (record lot { remaining_btc = n })) + lot.remaining_btc ≡ held lots + n
held-set [] i n lot e = absurd (cc)
held-set (l ∷ lots) zero n lot e = ground arith
held-set (l ∷ lots) (suc i) n lot e = omega (arith, held-set lots i n lot e)

module _ {D S : Type 0} (book : Lot D → ℕ → S → S) where
  measure : Drain D S → ℕ
  measure s = (length s.lots - s.cursor) + min s.remaining 1

  drain_lot-measure :
      (lot : Lot D) (s : Drain D S)
      → s.cursor < length s.lots
      → 0 < s.remaining
      → measure (drain_lot book lot s) < measure s
  unfolding measure drain_lot
  drain_lot-measure lot s h r =
      let left = lot.remaining_btc - min lot.remaining_btc s.remaining in
      ground (arith, length-set s.lots s.cursor (record lot { remaining_btc = left }))

  -- A round under the test is a round at a lot.
  pub drain_round_lem :
      (s : Drain D S)
      → drain_test book s ≡ true
      → (lot : Lot D) × (get_elem? s.lots s.cursor ≡ some lot)
        × (drain_round book s ≡ drain_lot book lot s)
        × (s.cursor < length s.lots)
        × (0 < s.remaining)
  unfolding drain_test drain_round
  drain_round_lem s t =
      let inside : s.cursor < length s.lots = ground arith in
      let (lot, e) = get_elem?-some s.lots s.cursor inside in
      (lot, e, rw (e, drain_round), inside, ground arith)

  drain_loop-ends :
      (fuel : ℕ) (s : Drain D S)
      → measure s < fuel
      → drain_test book (drain_loop book fuel s) ≡ false
  unfolding drain_loop
  drain_loop-ends zero s h = absurd (omega arith)
  drain_loop-ends (suc fuel) s h = elim (Bool-cases (drain_test book s)) [
    | inl t ↦
        let (lot, _, same, inside, more) = drain_round_lem s t in
        let falls = drain_lot-measure lot s inside more in
        rw t (drain_loop-ends fuel (drain_round book s) (rw same (omega arith)))
    | inr t ↦ rw t t
  ]

  -- The fuel of `drain` is enough.
  pub drain-ends : (s : Drain D S) → drain_test book (drain book s) ≡ false
  unfolding drain measure
  drain-ends s = drain_loop-ends (length s.lots + 2) s (omega arith)

  module _ (P : Drain D S → Type 0)
      (keep_round : (lot : Lot D) (s : Drain D S)
        → get_elem? s.lots s.cursor ≡ some lot
        → 0 < s.remaining
        → P s
        → P (drain_lot book lot s)) where
    drain_loop-keeps : (fuel : ℕ) (s : Drain D S) → P s → P (drain_loop book fuel s)
    unfolding drain_loop
    drain_loop-keeps zero s h = h
    drain_loop-keeps (suc fuel) s h = elim (Bool-cases (drain_test book s)) [
      | inl t ↦
          let (lot, e, same, inside, more) = drain_round_lem s t in
          rw t (drain_loop-keeps fuel (drain_round book s) (rw same (keep_round lot s e more h)))
      | inr t ↦ rw t h
    ]

    pub drain-keeps : (s : Drain D S) → P s → P (drain book s)
    unfolding drain
    drain-keeps s h = drain_loop-keeps (length s.lots + 2) s h

  -- What leaves the lots is what the disposal has been given.
  pub held-drain :
      (s : Drain D S)
      → held (drain book s).lots + s.remaining ≡ held s.lots + (drain book s).remaining
  unfolding drain_lot
  held-drain s =
      drain-keeps (λ t. held t.lots + s.remaining ≡ held s.lots + t.remaining)
        (λ lot t e more h. held_round s lot t e h) s refl
    where
      held_round :
          (s : Drain D S) (lot : Lot D) (t : Drain D S)
          → get_elem? t.lots t.cursor ≡ some lot
          → held t.lots + s.remaining ≡ held s.lots + t.remaining
          → held (drain_lot book lot t).lots + s.remaining
            ≡ held s.lots + (drain_lot book lot t).remaining
      held_round s lot t e h =
          let left = lot.remaining_btc - min lot.remaining_btc t.remaining in
          ground (arith, held-set t.lots t.cursor left lot e)

  pub length-drain : (s : Drain D S) → length (drain book s).lots ≡ length s.lots
  unfolding drain_lot
  length-drain s =
      drain-keeps (λ t. length t.lots ≡ length s.lots)
        (λ lot t e more h.
          let left = lot.remaining_btc - min lot.remaining_btc t.remaining in
          ground (arith, length-set t.lots t.cursor (record lot { remaining_btc = left })))
        s refl

  -- An invariant of the amount that remains and the books, kept by each lot that is used.
  pub drain-books :
      (Q : ℕ → S → Type 0)
      → ((lot : Lot D) (used r : ℕ) (b : S)
          → 0 < used
          → used ≤ r
          → Q r b
          → Q (r - used) (book lot used b))
      → (s : Drain D S) → Q s.remaining s.books
      → Q (drain book s).remaining (drain book s).books
  unfolding drain_lot
  drain-books Q keep s h =
      drain-keeps (λ t. Q t.remaining t.books)
        (λ lot t e more q. elim (Bool-cases (leb lot.remaining_btc 0)) [
          | inl empty ↦ rw empty q
          | inr full ↦ rw full (
              keep lot (min lot.remaining_btc t.remaining) t.remaining t.books (ground arith)
                (omega arith) q)
        ])
        s h
