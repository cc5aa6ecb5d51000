-- ===== src/Store/Oversell.antt =====
-- What the check of a change against the FIFO summaries guarantees.
use bitcoin_stack_tracker.Common.{
  ℕ, ◌≤◌, ◌≡◌, refl, ap, ◌∙◌, Bool, true, false, none, some, String, List, [], ◌∷◌, ◌||◌,
  if◌then◌else◌, ◌==◌, texts, Bool-cases, inl, inr, arith, eq_iff,
}
use bitcoin_stack_tracker.Common.Int.{ℤ}
use bitcoin_stack_tracker.Common.Dict.{Dict, lookup, get_or, insert, lookup-insert}
use bitcoin_stack_tracker.Ledger.{Entry, Python, Datetime, is_text}
use bitcoin_stack_tracker.Ledger.Order.{put, sorted}
use bitcoin_stack_tracker.Fifo.Books.{Details}
use bitcoin_stack_tracker.Fifo.Holding.{threshold_days}
use bitcoin_stack_tracker.Fifo.Rows.{no_totals, fifo_rows, filtered}
use bitcoin_stack_tracker.Fifo.Result.{fifo_result}
use bitcoin_stack_tracker.Security.State.{Result, ok, error, Error}
use bitcoin_stack_tracker.Security.Policy.{text_le}
use bitcoin_stack_tracker.Store.Data.{Row, Depot, FifoCache, Store, all_depots, default_depot_id}
use bitcoin_stack_tracker.Store.Cache.{
  entries_of, oversold_by_depot, increased, oversold_increased, add_depots, build_fifo_cache,
  fifo_cache_for_entries, cache_before, validate_fifo_change,
}

-- The key under which a depot's summary stands.
abbrev pub key_of : Depot → String
key_of depot = if is_text depot.id then depot.id else default_depot_id

abbrev pub is_key : String → List Depot → Bool
is_key j [] = false
is_key j (d ∷ ds) = key_of d == j || is_key j ds

lookup-oversold_by_depot :
    {D : Type 0} (j : String) (cache : FifoCache D)
    → (j == all_depots) ≡ false
    → lookup j (oversold_by_depot cache)
      ≡ elim (lookup j cache) [ none ↦ none | some r ↦ some r.totals.oversold_btc ]
unfolding oversold_by_depot
lookup-oversold_by_depot j [] h = refl
lookup-oversold_by_depot j ((k, r) ∷ cache) h = ground (
  arith,
  eq_iff k j,
  eq_iff k all_depots,
  eq_iff j all_depots,
  lookup-oversold_by_depot j cache h,
)

-- Where nothing has increased, no depot has more than before.
increased-nothing :
    (before after : Dict String ℕ) (j : String) (amount : ℕ)
    → increased before after ≡ []
    → lookup j after ≡ some amount
    → amount ≤ get_or j 0 before
unfolding increased
increased-nothing before [] j amount e l = absurd (cc)
increased-nothing before ((k, a) ∷ after) j amount e l =
    ground (arith, eq_iff k j, increased-nothing before after j amount)

sorted-nothing : (le : String → String → Bool) (xs : List String) → sorted le xs ≡ [] → xs ≡ []
unfolding sorted
sorted-nothing le [] e = refl
sorted-nothing le (x ∷ xs) e = absurd (not_empty x (sorted le xs) e)
  where
    not_empty : (x : String) (ys : List String) → put le x ys ≡ [] → ⊥
    not_empty x [] e = cc
    not_empty x (y ∷ ys) e = ground arith

module _ {D : Type 0} (py : Python D) (details : Details) where
  -- The BTC that the rows of a depot spend and its lots do not hold.
  unfoldable pub oversold_in : List (Row D) → ℤ → String → ℕ
  oversold_in rows days j =
      (fifo_rows py details (threshold_days days) (record { depots = []; totals = no_totals })
        (filtered py (some j) (entries_of rows))).totals.oversold_btc

  -- The moment at which `fifo_result` runs does not change what is oversold.
  fifo_result-oversold :
      (now : Datetime) (rows : List (Row D)) (days : ℤ) (j : String)
      → (fifo_result py details (some j) days now (entries_of rows)).totals.oversold_btc
        ≡ oversold_in rows days j
  unfolding fifo_result oversold_in
  fifo_result-oversold now rows days j = refl

  lookup-add_depots :
      (now : Datetime) (days : ℤ) (entries : List (Entry D)) (depots : List Depot)
      (cache : FifoCache D) (j : String)
      → lookup j (add_depots py details now days entries depots cache) ≡ (
          if is_key j depots
          then some (fifo_result py details (some j) days now entries)
          else lookup j cache)
  unfolding add_depots
  lookup-add_depots now days entries [] cache j = refl
  lookup-add_depots now days entries (d ∷ ds) cache j =
      let key = key_of d in
      let result = fifo_result py details (some key) days now entries in
      elim (Bool-cases (key == j)) [
        | inl same ↦
            let e = (eq_iff key j).0 same in
            lookup-add_depots now days entries ds (insert key result cache) j
            ∙ rw (lookup-insert key j result cache, same, e) (ground arith)
        | inr differs ↦
            lookup-add_depots now days entries ds (insert key result cache) j
            ∙ rw (lookup-insert key j result cache, differs) refl
      ]

  pub lookup-build :
      (now : Datetime) (rows : List (Row D)) (depots : List Depot) (days : ℤ) (j : String)
      → is_key j depots ≡ true
      → (j == all_depots) ≡ false
      → lookup j (oversold_by_depot (build_fifo_cache py details now rows depots days))
        ≡ some (oversold_in rows days j)
  unfolding build_fifo_cache
  lookup-build now rows depots days j k h =
      let start = (all_depots, fifo_result py details none days now (entries_of rows)) ∷ [] in
      lookup-oversold_by_depot j (add_depots py details now days (entries_of rows) depots start) h
      ∙ rw (lookup-add_depots now days (entries_of rows) depots start j, k)
          (ap some (fifo_result-oversold now rows days j))

  lookup-built :
      (now : Datetime) (rows : List (Row D)) (s : Store D) (j : String)
      → is_key j s.ledger.depots ≡ true
      → (j == all_depots) ≡ false
      → lookup j (oversold_by_depot (fifo_cache_for_entries py details now rows s))
        ≡ some (oversold_in rows s.ledger.tax_settings.long_term_days j)
  unfolding fifo_cache_for_entries
  lookup-built now rows s j k h =
      lookup-build now rows s.ledger.depots s.ledger.tax_settings.long_term_days j k h

  -- The summaries in memory, if they stand for the rows of the ledger.
  unfoldable pub IsCurrent : Store D → Type 0
  IsCurrent s =
      (j : String)
      → is_key j s.ledger.depots ≡ true
      → (j == all_depots) ≡ false
      → lookup j (oversold_by_depot s.fifo_cache)
        ≡ some (oversold_in s.ledger.entries s.ledger.tax_settings.long_term_days j)

  -- The oversold BTC of a depot of the store.
  unfoldable pub oversold_of : Store D → String → ℕ
  oversold_of s j = oversold_in s.ledger.entries s.ledger.tax_settings.long_term_days j

  cache_before-current :
      (now : Datetime) (s : Store D) (j : String)
      → IsCurrent s
      → is_key j s.ledger.depots ≡ true
      → (j == all_depots) ≡ false
      → lookup j (oversold_by_depot (cache_before py details now s.ledger.entries s))
        ≡ some (oversold_of s j)
  unfolding cache_before fifo_cache_for_entries IsCurrent oversold_of
  cache_before-current now s j c k h = go s.fifo_cache (c j k h)
    where
      go :
          (cache : FifoCache D)
          → lookup j (oversold_by_depot cache)
            ≡ some (oversold_in s.ledger.entries s.ledger.tax_settings.long_term_days j)
          → lookup j (
              oversold_by_depot (elim cache as (λ x. FifoCache D) [
                | [] ↦
                    build_fifo_cache py details now s.ledger.entries s.ledger.depots
                      s.ledger.tax_settings.long_term_days
                | kv ∷ rest ↦ s.fifo_cache
              ]))
            ≡ some (oversold_in s.ledger.entries s.ledger.tax_settings.long_term_days j)
      go [] e =
          lookup-build now s.ledger.entries s.ledger.depots s.ledger.tax_settings.long_term_days j k
            h
      go (kv ∷ rest) e = c j k h

  validate-ok :
      (now : Datetime) (rows : List (Row D)) (s : Store D) (cache : FifoCache D)
      → validate_fifo_change py details now s.ledger.entries rows s ≡ ok cache
      → (cache ≡ fifo_cache_for_entries py details now rows s)
        × (increased
              (oversold_by_depot (cache_before py details now s.ledger.entries s))
              (oversold_by_depot (fifo_cache_for_entries py details now rows s))
            ≡ [])
  unfolding validate_fifo_change oversold_increased
  validate-ok now rows s cache e =
      let before = oversold_by_depot (cache_before py details now s.ledger.entries s) in
      let after = oversold_by_depot (fifo_cache_for_entries py details now rows s) in
      go (sorted text_le (increased before after)) (sorted-nothing text_le (increased before after))
        e
    where
      go :
          (worse : List String)
          → (worse ≡ []
              → increased
                  (oversold_by_depot (cache_before py details now s.ledger.entries s))
                  (oversold_by_depot (fifo_cache_for_entries py details now rows s))
                ≡ [])
          → (elim worse as (λ x. Result (FifoCache D)) [
            | [] ↦ ok (fifo_cache_for_entries py details now rows s)
            | depot ∷ depots ↦ error Error.value_error
          ])
            ≡ ok cache
          → (cache ≡ fifo_cache_for_entries py details now rows s)
            × (increased
                  (oversold_by_depot (cache_before py details now s.ledger.entries s))
                  (oversold_by_depot (fifo_cache_for_entries py details now rows s))
                ≡ [])
      go [] f h = (cc, f refl)
      go (d ∷ ds) f h = absurd (cc)

  -- A change that passes worsens no known depot, and its cache is right.
  pub validate-oversold :
      (now : Datetime) (rows : List (Row D)) (s : Store D) (cache : FifoCache D) (j : String)
      → IsCurrent s
      → validate_fifo_change py details now s.ledger.entries rows s ≡ ok cache
      → is_key j s.ledger.depots ≡ true
      → (j == all_depots) ≡ false
      → (lookup j (oversold_by_depot cache)
          ≡ some (oversold_in rows s.ledger.tax_settings.long_term_days j))
        × (oversold_in rows s.ledger.tax_settings.long_term_days j ≤ oversold_of s j)
  validate-oversold now rows s cache j c e k h =
      let (same, none_worse) = validate-ok now rows s cache e in
      let days = s.ledger.tax_settings.long_term_days in
      let after = lookup-built now rows s j k h in
      let kept =
        increased-nothing (oversold_by_depot (cache_before py details now s.ledger.entries s))
          (oversold_by_depot (fifo_cache_for_entries py details now rows s)) j
          (oversold_in rows days j) none_worse after in
      let before = cache_before-current now s j c k h in (rw same after, rw before at kept)
