-- ===== src/Fifo/Drain.antt =====
-- The loop `while lot_cursor < len(lots) and remaining > 0` that sales and expenses share: it takes
-- BTC from the lots in their order, from the first that may still hold some. What it does with the
-- BTC taken from a lot is its parameter `book`.
pub mod Loop
pub mod Reference
pub mod Cursor
pub mod Erase
use Prim.Native.Nat.{min}
use bitcoin_stack_tracker.Common.{
  ℕ, zero, suc, ◌+◌, ◌-◌, Bool, Option, none, some, List, ltb, leb, if◌then◌else◌, ◌&&◌, length,
  get_elem?, set,
}
use bitcoin_stack_tracker.Fifo.Types.{Lot}

-- The variables of the loop; `books` are those that `book` changes.
pub record Drain (D S : Type 0) : Type 0 where
  pub lots : List (Lot D)
  pub cursor : ℕ
  pub remaining : ℕ
  pub books : S

module _ {D S : Type 0} (book : Lot D → ℕ → S → S) where
  -- One round, at the lot under the cursor.
  pub drain_lot : Lot D → Drain D S → Drain D S
  drain_lot lot s =
      if leb lot.remaining_btc 0
      then record s { cursor = s.cursor + 1 }
      else let used = min lot.remaining_btc s.remaining in
        let left = lot.remaining_btc - used in
        record {
          lots = set s.lots s.cursor (record lot { remaining_btc = left });
          cursor = if leb left 0 then s.cursor + 1 else s.cursor;
          remaining = s.remaining - used;
          books = book lot used s.books;
        }

  pub drain_test : Drain D S → Bool
  drain_test s = ltb s.cursor (length s.lots) && ltb 0 s.remaining

  pub drain_round : Drain D S → Drain D S
  unfolding drain_lot
  drain_round s = elim (get_elem? s.lots s.cursor) [ none ↦ s | some lot ↦ drain_lot lot s ]

  pub drain_loop : ℕ → Drain D S → Drain D S
  unfolding drain_test drain_round
  drain_loop zero s = s
  drain_loop (suc fuel) s =
      let rest = drain_loop fuel (drain_round s) in if drain_test s then rest else s

  -- Each round moves the cursor or uses up what remains, so these rounds are enough.
  unfoldable pub drain : Drain D S → Drain D S
  unfolding drain_loop
  drain s = drain_loop (length s.lots + 2) s
