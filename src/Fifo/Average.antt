-- ===== src/Fifo/Average.antt =====
-- `cumulative_average_entry_price_by_disposition` of
-- custom_components/bitcoin_stack_tracker/fifo.py: the average price of all acquisitions before a
-- disposal.
pub mod Laws
use bitcoin_stack_tracker.Common.{
  ℕ, ◌+◌, Bool, true, false, Option, none, some, String, List, [], ◌∷◌, ◌++◌, ◌≡◌, refl, sym, ap,
  ◌∙◌, if◌then◌else◌, or_else, nat_eq, not, ◌&&◌, ◌||◌, ◌==◌, texts, All, Bool-cases, Option-cases,
  inl, inr, arith, eq_iff, eq_refl, leb,
}
use bitcoin_stack_tracker.Common.Dict.{Dict, lookup, get_or, insert, lookup-insert}
use bitcoin_stack_tracker.Ledger.{
  Kind, purchase, income, stack, sale, expense, network_fee, other, Entry, Python, decimal_value,
  clipped_value, clipped_sats, is_text,
}
use bitcoin_stack_tracker.Ledger.Order.{sorted_entries}

-- The dict with the keys `btc` and `basis`.
pub record Bucket (D : Type 0) : Type 0 where
  pub btc : ℕ
  pub basis : D

-- The two dicts of the function.
pub record Averages (D : Type 0) : Type 0 where
  pub totals : Dict String (Bucket D)
  pub result : Dict String D

module _ {D : Type 0} (py : Python D) where
  -- `str(item.get("currency") or "").upper()`
  unfoldable pub row_currency : Entry D → String
  row_currency e = py.upper (or_else e.currency "")

  -- A bucket, or a new one, with one more acquisition.
  unfoldable pub bump : Entry D → Option (Bucket D) → Bucket D
  unfolding clipped_sats decimal_value clipped_value
  bump e bucket =
      let old = or_else bucket (record { btc = 0; basis = py.nought }) in
      let amount = clipped_sats e.amount_btc in
      record {
        btc = old.btc + amount;
        basis = py.plus old.basis (
            py.plus (py.times (py.of_sats amount) (decimal_value py e.price))
              (clipped_value py e.fee));
      }

  unfoldable pub add_acquisition : Entry D → Averages D → Averages D
  unfolding row_currency is_text decimal_value bump
  add_acquisition e a =
      let currency = row_currency e in
      if not (is_text currency) || not (py.is_positive (decimal_value py e.price))
      then a
      else record a { totals = insert currency (bump e (lookup currency a.totals)) a.totals }

  -- `bucket["basis"] / bucket["btc"]`, unless there is no bucket or no BTC in it.
  unfoldable pub average : Option (Bucket D) → Option D
  average none = none
  average (some bucket) =
      if leb bucket.btc 0 then none else some (py.over bucket.basis (py.of_sats bucket.btc))

  unfoldable pub add_disposal : Entry D → Averages D → Averages D
  unfolding row_currency is_text average
  add_disposal e a =
      let currency = row_currency e in
      if not (is_text e.id) || not (is_text currency)
      then a
      else elim (average (lookup currency a.totals)) [
        | none ↦ a
        | some price ↦ record a { result = insert e.id price a.result }
      ]

  unfoldable pub average_kind : Kind → Entry D → Averages D → Averages D
  unfolding add_acquisition add_disposal
  average_kind purchase e a = add_acquisition e a
  average_kind income e a = add_acquisition e a
  average_kind sale e a = add_disposal e a
  average_kind expense e a = add_disposal e a
  average_kind _ e a = a

  unfoldable pub average_step : Averages D → Entry D → Averages D
  unfolding average_kind clipped_sats
  average_step a e = if nat_eq (clipped_sats e.amount_btc) 0 then a else average_kind e.kind e a

  unfoldable pub average_rows : Averages D → List (Entry D) → Averages D
  unfolding average_step
  average_rows a [] = a
  average_rows a (e ∷ es) = average_rows (average_step a e) es

  unfoldable pub cumulative_average_entry_price_by_disposition : List (Entry D) → Dict String D
  unfolding average_rows sorted_entries
  cumulative_average_entry_price_by_disposition entries =
      (average_rows (record { totals = []; result = [] }) (sorted_entries py entries)).result
