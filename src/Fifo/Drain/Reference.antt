-- ===== src/Fifo/Drain/Reference.antt =====
-- First in, first out, without a cursor: the lots from the oldest on, each giving what it can. The
-- loop with its cursor does the same, as long as the lots before the cursor are empty.
use Prim.Native.Nat.{min}
use mathlib.Core.List.{append_assoc}
use bitcoin_stack_tracker.Common.{
  ℕ, zero, suc, ◌+◌, ◌-◌, ◌≤◌, ◌<◌, ◌≡◌, refl, sym, ◌∙◌, List, [], ◌∷◌, ◌++◌, true, false, leb,
  if◌then◌else◌, inl, inr, Bool-cases, arith, length, length-append, get_elem?-append, set-append,
  nat_eq,
}
use bitcoin_stack_tracker.Fifo.Types.{Lot}
use bitcoin_stack_tracker.Fifo.Drain.{Drain, drain_lot, drain_test, drain_round, drain_loop, drain}
use bitcoin_stack_tracker.Fifo.Drain.Loop.{held}

-- A lot after `used` is taken from it.
abbrev pub lot_less : {D : Type 0} → Lot D → ℕ → Lot D
lot_less lot used = record lot { remaining_btc = lot.remaining_btc - used }

module _ {D S : Type 0} (book : Lot D → ℕ → S → S) where
  -- Books only what is taken.
  abbrev pub book_used : Lot D → ℕ → S → S
  book_used lot used b = if nat_eq used 0 then b else book lot used b

  -- The lots, what remains to be disposed of, and the books.
  pub take_fifo : List (Lot D) → ℕ → S → List (Lot D) × ℕ × S
  take_fifo [] r b = ([], r, b)
  take_fifo (lot ∷ lots) r b =
      let used = min lot.remaining_btc r in
      let (lots', r', b') = take_fifo lots (r - used) (book_used lot used b) in
      (lot_less lot used ∷ lots', r', b')

  take_fifo-zero : (lots : List (Lot D)) (b : S) → take_fifo lots 0 b ≡ (lots, 0, b)
  unfolding take_fifo
  take_fifo-zero [] b = refl
  take_fifo-zero (lot ∷ lots) b = ground (arith, take_fifo-zero lots b)

  -- The loop from the cursor `length done`, over the lots that follow.
  abbrev at_cursor : List (Lot D) → List (Lot D) → ℕ → S → Drain D S
  at_cursor done rest r b = record {
    lots = done ++ rest;
    cursor = length done;
    remaining = r;
    books = b;
  }

  -- What the loop leaves agrees with `take_fifo`.
  abbrev Agrees : List (Lot D) → List (Lot D) × ℕ × S → Drain D S → Type 0
  Agrees done (lots, r, b) s = (s.lots ≡ done ++ lots) × (s.remaining ≡ r) × (s.books ≡ b)

  drain_loop-stops :
      (fuel : ℕ) (s : Drain D S) → drain_test book s ≡ false → drain_loop book fuel s ≡ s
  unfolding drain_loop
  drain_loop-stops zero s h = refl
  drain_loop-stops (suc fuel) s h = rw h

  test-nothing : (s : Drain D S) → s.remaining ≡ 0 → drain_test book s ≡ false
  unfolding drain_test
  test-nothing s h = ground arith

  test-end : (done : List (Lot D)) (r : ℕ) (b : S) → drain_test book (at_cursor done [] r b) ≡ false
  unfolding drain_test
  test-end done r b = ground (arith, length-append done [])

  test-more :
      (done rest : List (Lot D)) (lot : Lot D) (r : ℕ) (b : S)
      → drain_test book (at_cursor done (lot ∷ rest) (suc r) b) ≡ true
  unfolding drain_test
  test-more done rest lot r b = ground (arith, length-append done (lot ∷ rest))

  round-lot :
      (done rest : List (Lot D)) (lot : Lot D) (r : ℕ) (b : S)
      → drain_round book (at_cursor done (lot ∷ rest) r b)
        ≡ drain_lot book lot (at_cursor done (lot ∷ rest) r b)
  unfolding drain_round
  round-lot done rest lot r b = rw (get_elem?-append done rest lot, drain_round)

  snoc_cursor :
      (done rest : List (Lot D)) (lot : Lot D) (r : ℕ) (b : S)
      → at_cursor (done ++ lot ∷ []) rest r b
        ≡ record { lots = done ++ lot ∷ rest; cursor = length done + 1; remaining = r; books = b }
  snoc_cursor done rest lot r b =
      let p = append_assoc done (lot ∷ []) rest in
      let q : length (done ++ lot ∷ []) ≡ length done + 1 =
        omega (arith, length-append done (lot ∷ [])) in
      λ i. record { lots = p i; cursor = q i; remaining = r; books = b }

  -- An empty lot is passed.
  lot-empty :
      (done rest : List (Lot D)) (lot : Lot D) (r : ℕ) (b : S)
      → leb lot.remaining_btc 0 ≡ true
      → drain_lot book lot (at_cursor done (lot ∷ rest) r b) ≡ at_cursor (done ++ lot ∷ []) rest r b
  unfolding drain_lot
  lot-empty done rest lot r b e = rw (e, snoc_cursor done rest lot r b)

  -- A lot that is used up is passed.
  lot-used_up :
      (done rest : List (Lot D)) (lot : Lot D) (r : ℕ) (b : S)
      → leb lot.remaining_btc 0 ≡ false
      → leb (lot.remaining_btc - min lot.remaining_btc r) 0 ≡ true
      → drain_lot book lot (at_cursor done (lot ∷ rest) r b)
        ≡ at_cursor
            (done ++ lot_less lot (min lot.remaining_btc r) ∷ [])
            rest
            (r - min lot.remaining_btc r)
            (book lot (min lot.remaining_btc r) b)
  unfolding drain_lot
  lot-used_up done rest lot r b e f =
      let used = min lot.remaining_btc r in
      rw (
        e,
        f,
        set-append done rest lot (lot_less lot used),
        snoc_cursor done rest (lot_less lot used) (r - used) (book lot used b),
      )

  -- A lot that keeps something stays under the cursor.
  lot-kept :
      (done rest : List (Lot D)) (lot : Lot D) (r : ℕ) (b : S)
      → leb lot.remaining_btc 0 ≡ false
      → leb (lot.remaining_btc - min lot.remaining_btc r) 0 ≡ false
      → drain_lot book lot (at_cursor done (lot ∷ rest) r b)
        ≡ at_cursor done
            (lot_less lot (min lot.remaining_btc r) ∷ rest)
            (r - min lot.remaining_btc r)
            (book lot (min lot.remaining_btc r) b)
  unfolding drain_lot
  lot-kept done rest lot r b e f =
      rw (e, f, set-append done rest lot (lot_less lot (min lot.remaining_btc r)))

  -- `take_fifo` from a lot on, where the lot gives `used`.
  abbrev onto : Lot D → List (Lot D) × ℕ × S → List (Lot D) × ℕ × S
  onto lot (lots, r, b) = (lot ∷ lots, r, b)

  take-empty :
      (rest : List (Lot D)) (lot : Lot D) (r : ℕ) (b : S)
      → leb lot.remaining_btc 0 ≡ true
      → take_fifo (lot ∷ rest) r b ≡ onto lot (take_fifo rest r b)
  unfolding take_fifo
  take-empty rest lot r b e = ground arith

  take-used :
      (rest : List (Lot D)) (lot : Lot D) (r : ℕ) (b : S)
      → leb lot.remaining_btc 0 ≡ false
      → 0 < r
      → let used = min lot.remaining_btc r in
        take_fifo (lot ∷ rest) r b
        ≡ onto (lot_less lot used) (take_fifo rest (r - used) (book lot used b))
  unfolding take_fifo
  take-used rest lot r b e h = ground arith

  Agrees-onto :
      (done : List (Lot D)) (lot : Lot D) (t : List (Lot D) × ℕ × S) (s : Drain D S)
      → Agrees (done ++ lot ∷ []) t s
      → Agrees done (onto lot t) s
  Agrees-onto done lot (lots, r, b) s (p, q, o) = (p ∙ append_assoc done (lot ∷ []) lots, q, o)

  -- One round of the loop, at a lot and with something to dispose of.
  drain_loop-round :
      (fuel : ℕ) (done rest : List (Lot D)) (lot : Lot D) (r : ℕ) (b : S)
      → drain_loop book (suc fuel) (at_cursor done (lot ∷ rest) (suc r) b)
        ≡ drain_loop book fuel (drain_lot book lot (at_cursor done (lot ∷ rest) (suc r) b))
  drain_loop-round fuel done rest lot r b =
      rw (sym (round-lot done rest lot (suc r) b))
        (unfold drain_loop in rw (test-more done rest lot r b))

  -- A lot that keeps something has given all that was asked for: the loop ends.
  Agrees-kept :
      (rest done : List (Lot D)) (lot : Lot D) (fuel r : ℕ) (b : S)
      → leb lot.remaining_btc 0 ≡ false
      → leb (lot.remaining_btc - min lot.remaining_btc r) 0 ≡ false
      → let used = min lot.remaining_btc r in
        Agrees done
          (onto (lot_less lot used) (take_fifo rest (r - used) (book lot used b)))
          (drain_loop book fuel (drain_lot book lot (at_cursor done (lot ∷ rest) r b)))
  Agrees-kept rest done lot fuel r b e f =
      let used = min lot.remaining_btc r in
      let lot' = lot_less lot used in
      let all : r - used ≡ 0 = ground arith in
      rw
        (
          lot-kept done rest lot r b e f,
          all,
          drain_loop-stops fuel (at_cursor done (lot' ∷ rest) 0 (book lot used b))
              (test-nothing _ refl),
          take_fifo-zero rest (book lot used b),
        )
        (refl, refl, refl)

  drain_loop-Agrees :
      (rest done : List (Lot D)) (fuel r : ℕ) (b : S)
      → length rest ≤ fuel
      → Agrees done (take_fifo rest r b) (drain_loop book fuel (at_cursor done rest r b))
  drain_loop-Agrees [] done fuel r b h =
      rw (drain_loop-stops fuel (at_cursor done [] r b) (test-end done r b))
        (unfold take_fifo in (refl, refl, refl))
  drain_loop-Agrees (lot ∷ rest) done fuel zero b h =
      rw
        (
          drain_loop-stops fuel (at_cursor done (lot ∷ rest) 0 b) (test-nothing _ refl),
          take_fifo-zero (lot ∷ rest) b,
        )
        (refl, refl, refl)
  drain_loop-Agrees (lot ∷ rest) done zero (suc r) b h = absurd (omega arith)
  drain_loop-Agrees (lot ∷ rest) done (suc fuel) (suc r) b h =
      let used = min lot.remaining_btc (suc r) in
      let lot' = lot_less lot used in
      let passed = at_cursor (done ++ lot ∷ []) rest (suc r) b in
      let emptied = at_cursor (done ++ lot' ∷ []) rest (suc r - used) (book lot used b) in
      let ih_empty = drain_loop-Agrees rest (done ++ lot ∷ []) fuel (suc r) b (omega arith) in
      let ih_used =
        drain_loop-Agrees rest (done ++ lot' ∷ []) fuel (suc r - used) (book lot used b)
          (omega arith) in
      rw (drain_loop-round fuel done rest lot r b) (elim (Bool-cases (leb lot.remaining_btc 0)) [
        | inl e ↦
            rw (lot-empty done rest lot (suc r) b e, take-empty rest lot (suc r) b e)
              (Agrees-onto done lot (take_fifo rest (suc r) b) (drain_loop book fuel passed)
                ih_empty)
        | inr e ↦
            rw (take-used rest lot (suc r) b e (omega arith))
              (elim (Bool-cases (leb (lot.remaining_btc - used) 0)) [
                | inl f ↦ rw (lot-used_up done rest lot (suc r) b e f) (
                    Agrees-onto done lot' (take_fifo rest (suc r - used) (book lot used b))
                      (drain_loop book fuel emptied) ih_used)
                | inr f ↦ Agrees-kept rest done lot fuel (suc r) b e f
              ])
      ])

  take_fifo-append :
      (done rest : List (Lot D)) (r : ℕ) (b : S)
      → held done ≡ 0
      → take_fifo (done ++ rest) r b
        ≡ (let (lots, r', b') = take_fifo rest r b in (done ++ lots, r', b'))
  take_fifo-append [] rest r b h = refl
  take_fifo-append (lot ∷ done) rest r b h =
      rw
        (
          take-empty (done ++ rest) lot r b (ground arith),
          take_fifo-append done rest r b (omega arith),
        )
        refl

  -- With the cursor behind lots that are empty, the loop leaves the lots, the amount that remains
  -- and the books that first in, first out gives over all lots of the depot.
  pub drain_refines_fifo :
      (done rest : List (Lot D)) (r : ℕ) (b : S)
      → held done ≡ 0
      → let s =
          drain book
            (record { lots = done ++ rest; cursor = length done; remaining = r; books = b }) in
        (s.lots, s.remaining, s.books) ≡ take_fifo (done ++ rest) r b
  unfolding drain
  drain_refines_fifo done rest r b h =
      let enough : length rest ≤ length (done ++ rest) + 2 =
        omega (arith, length-append done rest) in
      let (p, q, o) = drain_loop-Agrees rest done (length (done ++ rest) + 2) r b enough in
      rw (take_fifo-append done rest r b h) (λ i. (p i, q i, o i))
