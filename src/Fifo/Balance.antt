-- ===== src/Fifo/Balance.antt =====
-- The BTC of one disposal is accounted for: by its summary, its matches and the running totals.
pub mod Sale
pub mod Expense
use bitcoin_stack_tracker.Common.{
  ℕ, ◌+◌, ◌-◌, ◌≤◌, ◌≡◌, String, List, [], ◌∷◌, sum_of, sum_of-append, arith,
}
use bitcoin_stack_tracker.Fifo.Types.{
  HoldingStatus, unknown, long_term, short_term, mixed, Lot, Match, Summary, Totals, DepotLots,
}
use bitcoin_stack_tracker.Ledger.{Python}
use bitcoin_stack_tracker.Fifo.Drain.{Drain, drain}
use bitcoin_stack_tracker.Fifo.Drain.Loop.{drain-books, held, held-drain}
use bitcoin_stack_tracker.Fifo.Books.{Books, add_class, add_gain, add_match, add_oversold}
use bitcoin_stack_tracker.Fifo.Sale.{use_lots}

-- What the matches have disposed of.
abbrev pub matched : {D : Type 0} → List (Match D) → ℕ
matched ms = sum_of (λ m. m.amount_btc) ms

-- While `r` of a disposal's `amount` remain: the summary's parts and the new matches hold the rest,
-- but for `ungained`, whose gain, and `unmatched`, whose match is still to be noted; and the totals
-- have grown, from `before`, by what the summary has left unresolved.
pub record IsAccounted {D : Type 0} (amount : ℕ) (before : Totals D) (ungained unmatched r : ℕ)
    (b : Books D) : Type 0 where
  pub whole : b.summary.amount_btc ≡ amount
  pub gains : b.summary.resolved_btc + b.summary.unresolved_btc + r + ungained ≡ amount
  pub classes :
      b.summary.long_term_btc + b.summary.short_term_btc + b.summary.unknown_holding_btc + r
      ≡ amount
  pub matches : matched b.totals.matches + r + unmatched ≡ matched before.matches + amount
  pub unresolved : b.totals.unresolved_btc ≡ before.unresolved_btc + b.summary.unresolved_btc
  pub oversold : b.totals.oversold_btc ≡ before.oversold_btc
  pub not_oversold : b.summary.oversold_btc ≡ 0

-- Between the rounds of the loop.
abbrev pub IsBalanced : {D : Type 0} → ℕ → Totals D → ℕ → Books D → Type 0
IsBalanced amount before r b = IsAccounted amount before 0 0 r b

module _ {D : Type 0} (py : Python D) (amount : ℕ) (before : Totals D) where
  pub class-IsAccounted :
      (class : HoldingStatus) (used r : ℕ) (b : Books D)
      → used ≤ r
      → IsBalanced amount before r b
      → IsAccounted amount before used used
          (r - used)
          (record b { summary = add_class class used b.summary })
  unfolding add_class
  class-IsAccounted unknown used r b u h = ground arith
  class-IsAccounted long_term used r b u h = ground arith
  class-IsAccounted short_term used r b u h = ground arith
  class-IsAccounted mixed used r b u h = ground arith

  pub add_gain-IsAccounted :
      (class : HoldingStatus) (currency : String) (used r : ℕ) (cost gain : D) (b : Books D)
      → IsAccounted amount before used used r b
      → IsAccounted amount before 0 used r (add_gain py class currency used cost gain b)
  unfolding add_gain
  add_gain-IsAccounted unknown currency used r cost gain b h = ground arith
  add_gain-IsAccounted long_term currency used r cost gain b h = ground arith
  add_gain-IsAccounted short_term currency used r cost gain b h = ground arith
  add_gain-IsAccounted mixed currency used r cost gain b h = ground arith

  pub add_match-IsBalanced :
      (m : Match D) (r : ℕ) (b : Books D)
      → IsAccounted amount before 0 m.amount_btc r b
      → IsBalanced amount before r (add_match m b)
  unfolding add_match
  add_match-IsBalanced m r b h =
      ground (arith, sum_of-append (λ m. m.amount_btc) b.totals.matches (m ∷ []))

-- A disposal that is over, from lots that held `available`. Its resolved and unresolved BTC make up
-- its amount, and so do its long-term, short-term and unknown BTC; its matches add up to it; the
-- running totals grow by what the summary leaves unresolved and oversold; the lots have given the
-- amount, less what is oversold.
pub record IsSettled {D : Type 0} (amount : ℕ) (before : Totals D) (available : ℕ)
    (s : Drain D (Books D)) : Type 0 where
  pub whole : s.books.summary.amount_btc ≡ amount
  pub gains : s.books.summary.resolved_btc + s.books.summary.unresolved_btc ≡ amount
  pub classes :
      s.books.summary.long_term_btc + s.books.summary.short_term_btc
        + s.books.summary.unknown_holding_btc
      ≡ amount
  pub matches : matched s.books.totals.matches ≡ matched before.matches + amount
  pub unresolved :
      s.books.totals.unresolved_btc ≡ before.unresolved_btc + s.books.summary.unresolved_btc
  pub oversold : s.books.totals.oversold_btc ≡ before.oversold_btc + s.books.summary.oversold_btc
  pub given : held s.lots + amount ≡ available + s.books.summary.oversold_btc

module _ {D : Type 0} (amount : ℕ) (before : Totals D) (depot : DepotLots D)
    (book : Lot D → ℕ → Books D → Books D)
    (balanced : (lot : Lot D) (used r : ℕ) (b : Books D)
      → used ≤ r
      → IsBalanced amount before r b
      → IsBalanced amount before (r - used) (book lot used b)) where
  oversold-IsSettled :
      (s : Drain D (Books D)) (m : Match D)
      → m.amount_btc ≡ s.remaining
      → IsBalanced amount before s.remaining s.books
      → held s.lots + amount ≡ held depot.lots + s.remaining
      → IsSettled amount before
          (held depot.lots)
          (record s { books = add_oversold s.remaining m s.books })
  unfolding add_oversold
  oversold-IsSettled s m e h g =
      ground (arith, sum_of-append (λ m. m.amount_btc) s.books.totals.matches (m ∷ []))

  -- The loop settles a disposal, whatever its match of the oversold rest says beside the amount.
  pub use_lots-IsSettled :
      (b : Books D) (rest : ℕ → Match D)
      → ((r : ℕ) → (rest r).amount_btc ≡ r)
      → IsBalanced amount before amount b
      → let s = use_lots book amount depot b in
        IsSettled amount before
          (held depot.lots)
          (record s { books = add_oversold s.remaining (rest s.remaining) s.books })
  unfolding use_lots
  use_lots-IsSettled b rest e h =
      let start : Drain D (Books D) = record {
        lots = depot.lots;
        cursor = depot.cursor;
        remaining = amount;
        books = b;
      } in
      let s = drain book start in
      oversold-IsSettled s (rest s.remaining) (e s.remaining)
        (drain-books book (IsBalanced amount before)
          (λ lot used r b pos u q. balanced lot used r b u q) start h)
        (held-drain book start)
