-- ===== src/Store/Cache.antt =====
-- The FIFO summaries that the store keeps, and the check of a change against them.
use bitcoin_stack_tracker.Common.{
  ℕ, none, some, String, List, [], ◌∷◌, if◌then◌else◌, ltb, ◌==◌, texts,
}
use bitcoin_stack_tracker.Common.Int.{ℤ}
use bitcoin_stack_tracker.Common.Dict.{Dict, get_or, insert}
use bitcoin_stack_tracker.Ledger.{Entry, Python, Datetime, is_text}
use bitcoin_stack_tracker.Ledger.Order.{sorted}
use bitcoin_stack_tracker.Fifo.Books.{Details}
use bitcoin_stack_tracker.Fifo.Result.{fifo_result}
use bitcoin_stack_tracker.Security.State.{Result, ok, error, value_error}
use bitcoin_stack_tracker.Security.Policy.{text_le}
use bitcoin_stack_tracker.Store.Data.{Row, Depot, FifoCache, Store, all_depots, default_depot_id}

abbrev pub entries_of : {D : Type 0} → List (Row D) → List (Entry D)
entries_of [] = []
entries_of (r ∷ rs) = r.entry ∷ entries_of rs

-- `_oversold_by_depot`; the dict has each depot's oversold satoshis.
unfoldable pub oversold_by_depot : {D : Type 0} → FifoCache D → Dict String ℕ
oversold_by_depot [] = []
oversold_by_depot ((depot_id, result) ∷ cache) =
    let rest = oversold_by_depot cache in
    if depot_id == all_depots then rest else (depot_id, result.totals.oversold_btc) ∷ rest

-- The depots of the second dict that have more there than in the first.
unfoldable pub increased : Dict String ℕ → Dict String ℕ → List String
increased before [] = []
increased before ((depot_id, amount) ∷ after) =
    let rest = increased before after in
    if ltb (get_or depot_id 0 before) amount then depot_id ∷ rest else rest

unfoldable pub oversold_increased : {D : Type 0} → FifoCache D → FifoCache D → List String
unfolding oversold_by_depot increased sorted text_le
oversold_increased before after =
    sorted text_le (increased (oversold_by_depot before) (oversold_by_depot after))

module _ {D : Type 0} (py : Python D) (details : Details) (now : Datetime) where
  -- The loop over the depots.
  unfoldable pub add_depots : ℤ → List (Entry D) → List Depot → FifoCache D → FifoCache D
  unfolding fifo_result is_text
  add_depots days entries [] cache = cache
  add_depots days entries (depot ∷ depots) cache =
      let depot_id = if is_text depot.id then depot.id else default_depot_id in
      add_depots days entries depots
        (insert depot_id (fifo_result py details (some depot_id) days now entries) cache)

  -- `_build_fifo_cache`; `now` is the moment at which `fifo_result` runs.
  unfoldable pub build_fifo_cache : List (Row D) → List Depot → ℤ → FifoCache D
  unfolding add_depots fifo_result
  build_fifo_cache rows depots days =
      let entries = entries_of rows in
      add_depots days entries depots
        ((all_depots, fifo_result py details none days now entries) ∷ [])

  unfoldable pub fifo_cache_for_entries : List (Row D) → Store D → FifoCache D
  unfolding build_fifo_cache
  fifo_cache_for_entries rows s =
      build_fifo_cache rows s.ledger.depots s.ledger.tax_settings.long_term_days

  -- The cache that stands for the ledger before a change.
  unfoldable pub cache_before : List (Row D) → Store D → FifoCache D
  unfolding fifo_cache_for_entries
  cache_before rows s = elim s.fifo_cache [
    | [] ↦ fifo_cache_for_entries rows s
    | kv ∷ cache ↦ s.fifo_cache
  ]

  -- `_async_validate_fifo_change`
  unfoldable pub validate_fifo_change : List (Row D) → List (Row D) → Store D → Result (FifoCache D)
  unfolding cache_before fifo_cache_for_entries oversold_increased
  validate_fifo_change before after s =
      let after_cache = fifo_cache_for_entries after s in
      elim (oversold_increased (cache_before before s) after_cache) [
        | [] ↦ ok after_cache
        | depot ∷ depots ↦ error value_error
      ]
