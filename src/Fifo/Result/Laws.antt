-- ===== src/Fifo/Result/Laws.antt =====
-- The sums and the next long-term date that `fifo_result` returns, against its open lots.
use bitcoin_stack_tracker.Common.{
  ℕ, ◌+◌, ◌≤◌, ◌<◌, ◌≡◌, refl, Bool, true, false, not, Option, String, List, [], ◌∷◌, if◌then◌else◌,
  arith, inl, inr, Bool-cases, leb, All, All-append, sum_of, sum_if, ◌||◌,
}
use bitcoin_stack_tracker.Common.Int.{ℤ}
use bitcoin_stack_tracker.Common.Dict.{Dict}
use bitcoin_stack_tracker.Ledger.{Entry, Python, TimeValue, Datetime, moment, to_utc}
use bitcoin_stack_tracker.Fifo.Types.{
  Lot, DepotLots, Fifo, HoldingStatus, unknown, long_term, short_term, mixed,
}
use bitcoin_stack_tracker.Fifo.Holding.{threshold_days}
use bitcoin_stack_tracker.Fifo.Books.{Details}
use bitcoin_stack_tracker.Fifo.Drain.Cursor.{IsWithin}
use bitcoin_stack_tracker.Fifo.Rows.{no_totals, fifo_rows, filtered}
use bitcoin_stack_tracker.Fifo.Cursor.{AllReady, fifo_rows-AllReady}
use bitcoin_stack_tracker.Fifo.Result.{
  OpenLot, is_long_term, is_short_term, all_lots, open_lots, open_btc, fifo_result, utc_datetime,
}

-- An open lot holds some BTC, and no more than was acquired with it.
abbrev pub IsOpen : {D : Type 0} → OpenLot D → Type 0
IsOpen o = (0 < o.lot.remaining_btc) × (o.lot.remaining_btc ≤ o.lot.original_btc)

all_lots-IsWithin :
    {D : Type 0} (depots : Dict String (DepotLots D))
    → AllReady depots
    → All IsWithin (all_lots depots)
unfolding all_lots
all_lots-IsWithin [] h = tt
all_lots-IsWithin ((name, depot) ∷ depots) h =
    All-append IsWithin depot.lots (all_lots depots) h.0.within (all_lots-IsWithin depots h.1)

open_lots-IsOpen :
    {D : Type 0} (details : Details) (reference : TimeValue) (threshold : ℕ) (lots : List (Lot D))
    → All IsWithin lots
    → All IsOpen (open_lots details reference threshold lots)
unfolding open_lots
open_lots-IsOpen details reference threshold [] h = tt
open_lots-IsOpen details reference threshold (l ∷ lots) h =
    elim (Bool-cases (leb l.remaining_btc 0)) [
      | inl empty ↦ rw empty (open_lots-IsOpen details reference threshold lots h.1)
      | inr full ↦
          rw full ((ground arith, h.0), open_lots-IsOpen details reference threshold lots h.1)
    ]

-- A test splits a sum in two.
sum_if-not :
    {A : Type 0} (p : A → Bool) (f : A → ℕ) (xs : List A)
    → sum_if p f xs + sum_if (λ x. not (p x)) f xs ≡ sum_of f xs
sum_if-not p f [] = refl
sum_if-not p f (x ∷ xs) = ground (arith, sum_if-not p f xs)

abbrev pub is_dated : HoldingStatus → Bool
is_dated s = is_long_term s || is_short_term s

class-split :
    (s : HoldingStatus) (n : ℕ)
    → (if is_long_term s then n else 0)
        + (if is_short_term s then n else 0)
        + (if not (is_dated s) then n else 0)
      ≡ n
class-split unknown n = omega arith
class-split long_term n = omega arith
class-split short_term n = omega arith
class-split mixed n = omega arith

abbrev pub status_of : {D : Type 0} → OpenLot D → HoldingStatus
status_of o = o.holding.holding_status

sum-classes :
    {D : Type 0} (os : List (OpenLot D))
    → sum_if (λ o. is_long_term (status_of o)) open_btc os
        + sum_if (λ o. is_short_term (status_of o)) open_btc os
        + sum_if (λ o. not (is_dated (status_of o))) open_btc os
      ≡ sum_of open_btc os
sum-classes [] = refl
sum-classes (o ∷ os) = omega (arith, sum-classes os, class-split (status_of o) o.lot.remaining_btc)

-- What a lot still holds, and the classes of the sums, read off the lot itself.
abbrev pub held_btc : {D : Type 0} → OpenLot D → ℕ
held_btc o = o.lot.remaining_btc

abbrev pub is_held_long : {D : Type 0} → OpenLot D → Bool
is_held_long o = elim o.holding.holding_status [
  | unknown ↦ false
  | long_term ↦ true
  | short_term ↦ false
  | mixed ↦ false
]

abbrev pub is_held_short : {D : Type 0} → OpenLot D → Bool
is_held_short o = elim o.holding.holding_status [
  | unknown ↦ false
  | long_term ↦ false
  | short_term ↦ true
  | mixed ↦ false
]

sum_if-same :
    {A : Type 0} (p q : A → Bool) (f : A → ℕ) (xs : List A)
    → ((x : A) → p x ≡ q x)
    → sum_if p f xs ≡ sum_if q f xs
sum_if-same p q f [] same = refl
sum_if-same p q f (x ∷ xs) same = ground (arith, same x, sum_if-same p q f xs same)

long_term-held :
    (s : HoldingStatus)
    → is_long_term s
      ≡ elim s [ unknown ↦ false | long_term ↦ true | short_term ↦ false | mixed ↦ false ]
long_term-held unknown = refl
long_term-held long_term = refl
long_term-held short_term = refl
long_term-held mixed = refl

short_term-held :
    (s : HoldingStatus)
    → is_short_term s
      ≡ elim s [ unknown ↦ false | long_term ↦ false | short_term ↦ true | mixed ↦ false ]
short_term-held unknown = refl
short_term-held long_term = refl
short_term-held short_term = refl
short_term-held mixed = refl

-- Every open lot holds some BTC, and no more than was acquired. The total, the BTC of known cost,
-- of long-term and of short-term holding are each the sum over the open lots of this kind; the BTC
-- of unknown cost and of unknown holding are the sums over the others. Both splits add up to the
-- total.
pub fifo_result-sums :
    {D : Type 0} (py : Python D) (details : Details) (depot : Option String) (long_term_days : ℤ)
    (as_of : Datetime) (entries : List (Entry D))
    → let r = fifo_result py details depot long_term_days as_of entries in
      All IsOpen r.open_lots
      × (r.total_btc ≡ sum_of held_btc r.open_lots)
      × (r.known_btc ≡ sum_if (λ o. o.lot.known_cost) held_btc r.open_lots)
      × (r.unknown_btc ≡ sum_if (λ o. not o.lot.known_cost) held_btc r.open_lots)
      × (r.known_btc + r.unknown_btc ≡ r.total_btc)
      × (r.long_term_btc ≡ sum_if is_held_long held_btc r.open_lots)
      × (r.short_term_btc ≡ sum_if is_held_short held_btc r.open_lots)
      × (r.unknown_holding_btc
          ≡ sum_if (λ o. not (is_held_long o || is_held_short o)) held_btc r.open_lots)
      × (r.long_term_btc + r.short_term_btc + r.unknown_holding_btc ≡ r.total_btc)
unfolding fifo_result
fifo_result-sums py details depot long_term_days as_of entries =
    let threshold = threshold_days long_term_days in
    let start : Fifo _ = record { depots = []; totals = no_totals } in
    let f = fifo_rows py details threshold start (filtered py depot entries) in
    let ready = fifo_rows-AllReady py details threshold start (filtered py depot entries) tt in
    let os =
      open_lots details (moment (utc_datetime (to_utc as_of))) threshold (all_lots f.depots) in
    let known = sum_if-not (λ o. o.lot.known_cost) open_btc os in
    let classes = sum-classes os in
    let others =
      sum_if-same (λ o. not (is_dated (status_of o))) (λ o. not (is_held_long o || is_held_short o))
        open_btc os
        (λ o. ground (arith, long_term-held (status_of o), short_term-held (status_of o))) in
    (
      open_lots-IsOpen details (moment (utc_datetime (to_utc as_of))) threshold (all_lots f.depots)
          (all_lots-IsWithin f.depots ready),
      refl,
      refl,
      omega (arith, known),
      omega (arith, known),
      sum_if-same (λ o. is_long_term (status_of o)) is_held_long open_btc os
          (λ o. long_term-held (status_of o)),
      sum_if-same (λ o. is_short_term (status_of o)) is_held_short open_btc os
          (λ o. short_term-held (status_of o)),
      omega (arith, classes, others),
      omega (arith, classes),
    )
