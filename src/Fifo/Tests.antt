-- ===== src/Fifo/Tests.antt =====
-- A small ledger run through `fifo_result`, and the theorems at concrete inputs.
use bitcoin_stack_tracker.Common.{
  ℕ, sum_of, ◌||◌, ◌+◌, ◌*◌, ◌/◌, ◌≡◌, refl, true, false, none, some, String, List, [], ◌∷◌, ◌++◌,
  sum_if,
}
use mathlib.Core.List.{Perm}
use bitcoin_stack_tracker.Common.Int.{ℤ, pos, pos_part, neg_part, sub_ℕ, ltb_ℤ, ◌+ℤ◌, ◌-ℤ◌}
use bitcoin_stack_tracker.Ledger.{
  Kind, purchase, sale, expense, network_fee, Entry, Python, Datetime, moment, day,
}
use bitcoin_stack_tracker.Ledger.Order.{
  sorted_entries, sorted_entries-IsChronological, IsChronological,
}
use bitcoin_stack_tracker.Ledger.{clipped_sats}
use bitcoin_stack_tracker.Fifo.Types.{Lot, Match, DepotLots}
use bitcoin_stack_tracker.Fifo.Holding.{holding_details}
use bitcoin_stack_tracker.Fifo.Drain.Loop.{held}
use bitcoin_stack_tracker.Fifo.Drain.Reference.{take_fifo}
use bitcoin_stack_tracker.Fifo.Sale.{sale_of, sale_books}
use bitcoin_stack_tracker.Fifo.Expense.{expense_of, expense_books}
use bitcoin_stack_tracker.Fifo.Rows.{in_depot, no_totals}
use bitcoin_stack_tracker.Fifo.Result.{fifo_result}
use bitcoin_stack_tracker.Fifo.Balance.{matched, IsSettled}
use bitcoin_stack_tracker.Fifo.Balance.Sale.{sale_books-IsSettled}
use bitcoin_stack_tracker.Fifo.Balance.Expense.{expense_books-IsSettled}
use bitcoin_stack_tracker.Fifo.Conservation.{inflow, spent, fifo_result_conserves}
use bitcoin_stack_tracker.Common.{◌-◌, ◌≤◌, ◌⊎◌, not, All, arith, texts}
use bitcoin_stack_tracker.Common.Dict.{get_or}
use bitcoin_stack_tracker.Fifo.Cursor.{fifo_rows-take_fifo}
use bitcoin_stack_tracker.Fifo.Depots.{fifo_rows-filtered}
use bitcoin_stack_tracker.Fifo.Gains.{IsRealized}
use bitcoin_stack_tracker.Fifo.Gains.Result.{fifo_result-IsRealized}
use bitcoin_stack_tracker.Fifo.Result.Laws.{
  IsOpen, held_btc, is_held_long, is_held_short, fifo_result-sums,
}
use bitcoin_stack_tracker.Fifo.Holding.Laws.{
  microseconds, class_of_days, holding_of-days, days_until-least,
}
use bitcoin_stack_tracker.Fifo.Holding.{holding_of, threshold_days}
use bitcoin_stack_tracker.Fifo.Sale.{use_lots, sale_book, sale_opening}
use bitcoin_stack_tracker.Fifo.Rows.{no_lots, fifo_rows, filtered}
use bitcoin_stack_tracker.Common.Dict.{lookup}
use bitcoin_stack_tracker.Fifo.Average.{cumulative_average_entry_price_by_disposition, row_currency}
use bitcoin_stack_tracker.Fifo.Average.Laws.{
  average_price, is_disposal, counts_in, cumulative_average-before,
}

-- Decimals as whole numbers, with a division that rounds towards zero.
times_ℤ : ℤ → ℤ → ℤ
times_ℤ a b =
    sub_ℕ (pos_part a * pos_part b + neg_part a * neg_part b)
      (pos_part a * neg_part b + neg_part a * pos_part b)

over_ℤ : ℤ → ℤ → ℤ
over_ℤ a b = sub_ℕ (pos_part a / pos_part b) (neg_part a / pos_part b)

whole : Python ℤ
whole = record {
  fromisoformat = λ s. none;
  upper = λ s. s;
  nought = pos 0;
  of_sats = pos;
  plus = ◌+ℤ◌;
  minus = ◌-ℤ◌;
  times = times_ℤ;
  over = over_ℤ;
  is_positive = λ a. ltb_ℤ (pos 0) a;
}

abbrev map_amounts : List (Match ℤ) → List ℕ
map_amounts [] = []
map_amounts (m ∷ ms) = m.amount_btc ∷ map_amounts ms

abbrev on_day : ℕ → Datetime
on_day n = record { wall = n * day; offset = none }

abbrev row : String → Kind → ℕ → ℕ → ℕ → ℕ → Entry ℤ
row id kind n amount price fee = record {
  id = id;
  kind = kind;
  timestamp = moment (on_day n);
  depot_id = none;
  amount_btc = some (pos amount);
  price = some (pos price);
  fee = some (pos fee);
  currency = some "EUR";
  fee_btc = none;
  fee_btc_affects_stack = false;
  transaction_fee = false;
  source_entry_id = none;
  source_type = none;
}

-- Out of order; the sale of 12 takes the lot of 10 whole, and 2 of the lot of 5.
abbrev ledger : List (Entry ℤ)
ledger =
    row "s" sale 500 12 9 0
    ∷ row "a" purchase 100 10 3 0
    ∷ row "b" purchase 400 5 4 0
    ∷ row "n" network_fee 600 1 9 0
    ∷ []

run_ledger :
    let r = fifo_result whole (holding_details whole) none (pos 365) (on_day 700) ledger in
    (r.total_btc ≡ 2)
    × (map_amounts r.totals.matches ≡ 10 ∷ 2 ∷ 1 ∷ [])
    × (r.totals.oversold_btc ≡ 0)
unfolding fifo_result holding_details whole times_ℤ over_ℤ ◌+ℤ◌ ◌-ℤ◌
run_ledger = (refl, refl, refl)

sorted_entries-IsChronological_example :
    Perm (sorted_entries whole ledger) ledger × IsChronological whole (sorted_entries whole ledger)
sorted_entries-IsChronological_example = sorted_entries-IsChronological whole ledger

abbrev lot : String → ℕ → Lot ℤ
lot id left = record {
  entry_id = id;
  timestamp = moment (on_day 100);
  depot_id = "main";
  original_btc = 10;
  remaining_btc = left;
  currency = some "EUR";
  unit_basis = some (pos 3);
  known_cost = true;
  source_type = purchase;
}

abbrev noted_uses : Lot ℤ → ℕ → List ℕ → List ℕ
noted_uses l used b = b ++ used ∷ []

abbrev depot : DepotLots ℤ
depot = record { lots = lot "a" 0 ∷ lot "b" 4 ∷ []; cursor = 1 }

sale_books-IsSettled_example :
    IsSettled (sale_of whole 365 (row "s" sale 500 6 9 0)).amount no_totals (held depot.lots) (
      sale_books whole
        (holding_details whole)
        (sale_of whole 365 (row "s" sale 500 6 9 0))
        depot
        no_totals)
sale_books-IsSettled_example =
    sale_books-IsSettled whole (holding_details whole) (sale_of whole 365 (row "s" sale 500 6 9 0))
      depot no_totals

expense_books-IsSettled_example :
    IsSettled
      (expense_of whole 365 (row "x" expense 500 6 9 0)).amount
      no_totals
      (held depot.lots)
      (expense_books whole
        (holding_details whole)
        "x"
        (expense_of whole 365 (row "x" expense 500 6 9 0))
        depot
        no_totals)
expense_books-IsSettled_example =
    expense_books-IsSettled whole (holding_details whole) "x"
      (expense_of whole 365 (row "x" expense 500 6 9 0)) depot no_totals

fifo_result_conserves_example :
    let r = fifo_result whole (holding_details whole) none (pos 365) (on_day 700) ledger in
    (r.total_btc + sum_if (in_depot none) spent ledger
      ≡ sum_if (in_depot none) inflow ledger + r.totals.oversold_btc)
    × (matched r.totals.matches ≡ sum_if (in_depot none) spent ledger)
fifo_result_conserves_example =
    fifo_result_conserves whole (holding_details whole) none (pos 365) (on_day 700) ledger

fifo_rows-take_fifo_example :
    let f =
      fifo_rows whole
        (holding_details whole)
        365
        (record { depots = []; totals = no_totals })
        (filtered whole none ledger) in
    let depot = get_or "main" no_lots f.depots in
    let s =
      use_lots
        (sale_book whole (holding_details whole) (sale_of whole 365 (row "s" sale 650 6 9 0)))
        6
        depot
        (sale_opening whole (sale_of whole 365 (row "s" sale 650 6 9 0)) no_totals) in
    ((s.lots, s.remaining, s.books)
      ≡ take_fifo
          (sale_book whole (holding_details whole) (sale_of whole 365 (row "s" sale 650 6 9 0)))
          depot.lots
          6
          (sale_opening whole (sale_of whole 365 (row "s" sale 650 6 9 0)) no_totals))
    × ((s.remaining ≡ 0) ⊎ (held s.lots ≡ 0))
fifo_rows-take_fifo_example =
    fifo_rows-take_fifo whole (holding_details whole) 365 (filtered whole none ledger) "main"
      (sale_book whole (holding_details whole) (sale_of whole 365 (row "s" sale 650 6 9 0))) 6
      (sale_opening whole (sale_of whole 365 (row "s" sale 650 6 9 0)) no_totals)

fifo_rows-filtered_example :
    get_or "main" no_lots
      (fifo_rows whole
        (holding_details whole)
        365
        (record { depots = []; totals = no_totals })
        (filtered whole none ledger)).depots
    ≡ get_or "main" no_lots
        (fifo_rows whole
          (holding_details whole)
          365
          (record { depots = []; totals = no_totals })
          (filtered whole (some "main") ledger)).depots
fifo_rows-filtered_example = fifo_rows-filtered whole (holding_details whole) 365 "main" ledger

fifo_result-sums_example :
    let r = fifo_result whole (holding_details whole) none (pos 365) (on_day 700) ledger in
    All IsOpen r.open_lots
    × (r.total_btc ≡ sum_of held_btc r.open_lots)
    × (r.known_btc ≡ sum_if (λ o. o.lot.known_cost) held_btc r.open_lots)
    × (r.unknown_btc ≡ sum_if (λ o. not o.lot.known_cost) held_btc r.open_lots)
    × (r.known_btc + r.unknown_btc ≡ r.total_btc)
    × (r.long_term_btc ≡ sum_if is_held_long held_btc r.open_lots)
    × (r.short_term_btc ≡ sum_if is_held_short held_btc r.open_lots)
    × (r.unknown_holding_btc
        ≡ sum_if (λ o. not (is_held_long o || is_held_short o)) held_btc r.open_lots)
    × (r.long_term_btc + r.short_term_btc + r.unknown_holding_btc ≡ r.total_btc)
fifo_result-sums_example =
    fifo_result-sums whole (holding_details whole) none (pos 365) (on_day 700) ledger

fifo_result-IsRealized_example :
    IsRealized whole
      (fifo_result whole (holding_details whole) none (pos 365) (on_day 700) ledger).totals
fifo_result-IsRealized_example =
    fifo_result-IsRealized whole (holding_details whole) none (pos 365) (on_day 700) ledger

holding_of-days_example :
    let h = holding_of (some (100 * day)) (some (465 * day)) (pos 365) in
    let days = (465 * day - 100 * day) / day in
    (h.holding_days ≡ some days)
    × (h.holding_status ≡ class_of_days (threshold_days (pos 365)) days)
    × (h.long_term_date ≡ some (100 * day + threshold_days (pos 365) * day))
holding_of-days_example = holding_of-days (100 * day) (465 * day) (pos 365) (omega arith)

days_until-least_example :
    let reference = 100 * day + 90_000 * microseconds in
    let h = holding_of (some (100 * day)) (some reference) (pos 365) in
    (n : ℕ) × (h.days_until_long_term ≡ some n)
    × (100 * day + threshold_days (pos 365) * day ≤ reference + n * day)
    × ((m : ℕ) → 100 * day + threshold_days (pos 365) * day ≤ reference + m * day → n ≤ m)
days_until-least_example = days_until-least (100 * day) 90_000 (pos 365)

cumulative_average-before_example :
    lookup "s" (cumulative_average_entry_price_by_disposition whole ledger)
    ≡ average_price whole (row "a" purchase 100 10 3 0 ∷ row "b" purchase 400 5 4 0 ∷ [])
unfolding sorted_entries whole is_disposal row_currency clipped_sats counts_in
cumulative_average-before_example =
    cumulative_average-before whole ledger
      (row "a" purchase 100 10 3 0 ∷ row "b" purchase 400 5 4 0 ∷ [])
      (row "n" network_fee 600 1 9 0 ∷ []) (row "s" sale 500 12 9 0) refl refl refl refl refl
      (refl, (refl, tt)) (refl, tt)
