-- ===== src/Fifo/Drain/Cursor.antt =====
-- The loop keeps the lots before the cursor empty, and every lot within what it held at first.
use Prim.Native.Nat.{min}
use bitcoin_stack_tracker.Common.{
  ℕ, zero, suc, ◌+◌, ◌-◌, ◌≤◌, ◌<◌, ◌≡◌, refl, ap, false, some, List, [], ◌∷◌, ◌++◌, inl, inr, ◌⊎◌,
  Bool-cases, arith, leb, length, get_elem?, set, All,
}
use bitcoin_stack_tracker.Fifo.Types.{Lot}
use bitcoin_stack_tracker.Fifo.Drain.{Drain, drain_lot, drain_test, drain}
use bitcoin_stack_tracker.Fifo.Drain.Loop.{drain-keeps, drain-ends, held}

-- The first `n` lots are there, and hold nothing.
abbrev pub IsEmptied : {D : Type 0} → ℕ → List (Lot D) → Type 0
IsEmptied zero lots = Unit
IsEmptied (suc n) [] = ⊥
IsEmptied (suc n) (l ∷ lots) = (l.remaining_btc ≡ 0) × IsEmptied n lots

abbrev pub IsWithin : {D : Type 0} → Lot D → Type 0
IsWithin l = l.remaining_btc ≤ l.original_btc

-- What the main loop keeps of each depot.
pub record IsReady {D : Type 0} (lots : List (Lot D)) (cursor : ℕ) : Type 0 where
  pub emptied : IsEmptied cursor lots
  pub within : All IsWithin lots

module _ {D : Type 0} where
  pub IsEmptied-append : (n : ℕ) (xs ys : List (Lot D)) → IsEmptied n xs → IsEmptied n (xs ++ ys)
  IsEmptied-append zero xs ys h = tt
  IsEmptied-append (suc n) [] ys h = absurd h
  IsEmptied-append (suc n) (l ∷ xs) ys h = (h.0, IsEmptied-append n xs ys h.1)

  -- The lots are those passed and the rest.
  pub IsEmptied-split :
      (n : ℕ) (lots : List (Lot D))
      → IsEmptied n lots
      → (done : List (Lot D)) × (rest : List (Lot D)) × (lots ≡ done ++ rest)
        × (n ≡ length done)
        × (held done ≡ 0)
  IsEmptied-split zero lots h = ([], lots, refl, refl, refl)
  IsEmptied-split (suc n) [] h = absurd h
  IsEmptied-split (suc n) (l ∷ lots) h =
      let (done, rest, p, q, e) = IsEmptied-split n lots h.1 in
      (l ∷ done, rest, ap (λ xs. l ∷ xs) p, ap suc q, omega (arith, h.0, e))

  -- At the end of the lots nothing is held.
  pub IsEmptied-end :
      (n : ℕ) (lots : List (Lot D)) → IsEmptied n lots → length lots ≤ n → held lots ≡ 0
  IsEmptied-end zero [] h p = refl
  IsEmptied-end zero (l ∷ lots) h p = absurd (omega arith)
  IsEmptied-end (suc n) [] h p = refl
  IsEmptied-end (suc n) (l ∷ lots) h p = omega (arith, h.0, IsEmptied-end n lots h.1 (omega arith))

  set-IsEmptied :
      (n : ℕ) (lots : List (Lot D)) (x : Lot D) → IsEmptied n lots → IsEmptied n (set lots n x)
  set-IsEmptied zero lots x h = tt
  set-IsEmptied (suc n) [] x h = absurd h
  set-IsEmptied (suc n) (l ∷ lots) x h = (h.0, set-IsEmptied n lots x h.1)

  set-IsEmptied_next :
      (n : ℕ) (lots : List (Lot D)) (x lot : Lot D)
      → get_elem? lots n ≡ some lot
      → x.remaining_btc ≡ 0
      → IsEmptied n lots
      → IsEmptied (suc n) (set lots n x)
  set-IsEmptied_next n [] x lot e z h = absurd (cc)
  set-IsEmptied_next zero (l ∷ lots) x lot e z h = (z, tt)
  set-IsEmptied_next (suc n) (l ∷ lots) x lot e z h = (h.0, set-IsEmptied_next n lots x lot e z h.1)

  IsEmptied-next :
      (n : ℕ) (lots : List (Lot D)) (lot : Lot D)
      → get_elem? lots n ≡ some lot
      → lot.remaining_btc ≡ 0
      → IsEmptied n lots
      → IsEmptied (suc n) lots
  IsEmptied-next n [] lot e z h = absurd (cc)
  IsEmptied-next zero (l ∷ lots) lot e z h = ground arith
  IsEmptied-next (suc n) (l ∷ lots) lot e z h = (h.0, IsEmptied-next n lots lot e z h.1)

  set-IsWithin :
      (n r : ℕ) (lots : List (Lot D)) (lot : Lot D)
      → get_elem? lots n ≡ some lot
      → r ≤ lot.remaining_btc
      → All IsWithin lots
      → All IsWithin (set lots n (record lot { remaining_btc = r }))
  set-IsWithin n r [] lot e p h = absurd (cc)
  set-IsWithin zero r (l ∷ lots) lot e p h = ground arith
  set-IsWithin (suc n) r (l ∷ lots) lot e p h = (h.0, set-IsWithin n r lots lot e p h.1)

  one_more : (n : ℕ) (lots : List (Lot D)) → IsEmptied (suc n) lots → IsEmptied (n + 1) lots
  one_more n lots h = let e : n + 1 ≡ suc n = omega arith in rw e h

module _ {D S : Type 0} (book : Lot D → ℕ → S → S) where
  drain_lot-IsReady :
      (lot : Lot D) (s : Drain D S)
      → get_elem? s.lots s.cursor ≡ some lot
      → 0 < s.remaining
      → IsReady s.lots s.cursor
      → IsReady (drain_lot book lot s).lots (drain_lot book lot s).cursor
  unfolding drain_lot
  drain_lot-IsReady lot s e more h =
      let used = min lot.remaining_btc s.remaining in
      let left = lot.remaining_btc - used in
      let lot' = record lot { remaining_btc = left } in
      let within = set-IsWithin s.cursor left s.lots lot e (omega arith) h.within in
      elim (Bool-cases (leb lot.remaining_btc 0)) [
        | inl empty ↦ rw empty (record {
          emptied =
              one_more s.cursor s.lots
                (IsEmptied-next s.cursor s.lots lot e (ground arith) h.emptied);
          within = h.within;
        })
        | inr full ↦ rw full (elim (Bool-cases (leb left 0)) [
          | inl used_up ↦ rw used_up (record {
            emptied =
                one_more s.cursor (set s.lots s.cursor lot')
                  (set-IsEmptied_next s.cursor s.lots lot' lot e (ground arith) h.emptied);
            within = within;
          })
          | inr kept ↦
              rw kept
                (record { emptied = set-IsEmptied s.cursor s.lots lot' h.emptied; within = within })
        ])
      ]

  pub drain-IsReady :
      (s : Drain D S) → IsReady s.lots s.cursor → IsReady (drain book s).lots (drain book s).cursor
  drain-IsReady s h =
      drain-keeps book (λ t. IsReady t.lots t.cursor)
        (λ lot t e more r. drain_lot-IsReady lot t e more r) s h

  ends-cases :
      (s : Drain D S) → drain_test book s ≡ false → (s.remaining ≡ 0) ⊎ (length s.lots ≤ s.cursor)
  unfolding drain_test
  ends-cases s h = ground arith

  -- Something is left to dispose of only when no lot holds anything.
  pub drain-exhausts :
      (s : Drain D S)
      → IsReady s.lots s.cursor
      → ((drain book s).remaining ≡ 0) ⊎ (held (drain book s).lots ≡ 0)
  drain-exhausts s h = elim (ends-cases (drain book s) (drain-ends book s)) [
    | inl nothing ↦ inl nothing
    | inr passed ↦
        inr (
          IsEmptied-end (drain book s).cursor (drain book s).lots (drain-IsReady s h).emptied
            passed)
  ]
