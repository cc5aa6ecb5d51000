-- ===== src/Fifo/Drain/Erase.antt =====
-- What the loop does to the lots does not depend on the books.
use bitcoin_stack_tracker.Common.{
  ℕ, zero, suc, ◌+◌, ◌≡◌, refl, inl, inr, Bool-cases, Option-cases, leb, get_elem?, length,
}
use bitcoin_stack_tracker.Fifo.Types.{Lot}
use bitcoin_stack_tracker.Fifo.Drain.{Drain, drain_lot, drain_test, drain_round, drain_loop, drain}

-- The loop's variables without the books.
abbrev pub erase : {D S : Type 0} → Drain D S → Drain D (Unit {0})
erase s = record { lots = s.lots; cursor = s.cursor; remaining = s.remaining; books = tt }

abbrev pub no_books : {D : Type 0} → Lot D → ℕ → Unit {0} → Unit {0}
no_books lot used b = tt

module _ {D S : Type 0} (book : Lot D → ℕ → S → S) where
  erase-drain_lot :
      (lot : Lot D) (s : Drain D S)
      → erase (drain_lot book lot s) ≡ drain_lot no_books lot (erase s)
  unfolding drain_lot
  erase-drain_lot lot s = elim (Bool-cases (leb lot.remaining_btc 0)) [
    | inl e ↦ rw e
    | inr e ↦ rw e
  ]

  erase-drain_round : (s : Drain D S) → erase (drain_round book s) ≡ drain_round no_books (erase s)
  unfolding drain_round
  erase-drain_round s = elim (Option-cases (get_elem? s.lots s.cursor)) [
    | inl e ↦ rw (e, drain_round)
    | inr (lot, e) ↦ rw (e, drain_round) (erase-drain_lot lot s)
  ]

  erase-drain_test : (s : Drain D S) → drain_test no_books (erase s) ≡ drain_test book s
  unfolding drain_test
  erase-drain_test s = refl

  erase-drain_loop :
      (fuel : ℕ) (s : Drain D S)
      → erase (drain_loop book fuel s) ≡ drain_loop no_books fuel (erase s)
  unfolding drain_loop
  erase-drain_loop zero s = refl
  erase-drain_loop (suc fuel) s = elim (Bool-cases (drain_test book s)) [
    | inl e ↦
        rw (erase-drain_test s, e)
          (rw (← erase-drain_round s) (erase-drain_loop fuel (drain_round book s)))
    | inr e ↦ rw (erase-drain_test s, e)
  ]

  pub erase-drain : (s : Drain D S) → erase (drain book s) ≡ drain no_books (erase s)
  unfolding drain
  erase-drain s = erase-drain_loop (length s.lots + 2) s
