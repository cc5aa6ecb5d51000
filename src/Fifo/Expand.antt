-- ===== src/Fifo/Expand.antt =====
-- `_entries_with_btc_fee_disposals`: pure BTC fees become disposals of their own.
use Prim.Native.String.{String, ◌++◌ as text_append}
use bitcoin_stack_tracker.Common.{
  Bool, true, false, none, some, List, [], ◌∷◌, ◌++◌, nat_eq, if◌then◌else◌, or_else, ◌||◌, ◌&&◌,
  not,
}
use bitcoin_stack_tracker.Common.Int.{pos}
use bitcoin_stack_tracker.Ledger.{
  Kind, expense, network_fee, Entry, Python, clipped_sats, decimal_value, is_text,
}

module _ {D : Type 0} (py : Python D) where
  -- A standalone `network_fee` row as a disposal without proceeds.
  unfoldable pub network_fee_disposal : Entry D → Entry D
  network_fee_disposal e = record e {
    kind = expense;
    fee = some py.nought;
    transaction_fee = true;
    source_entry_id = some e.id;
    source_type = some network_fee;
  }

  -- `str(original.get("currency") or "").upper()`
  unfoldable pub fee_currency : Entry D → String
  fee_currency e = py.upper (or_else e.currency "")

  -- The currency and price are set only if both are there.
  unfoldable pub fee_is_priced : Entry D → Bool
  unfolding fee_currency is_text decimal_value
  fee_is_priced e = is_text (fee_currency e) && py.is_positive (decimal_value py e.price)

  -- The extra disposal of the BTC fee of a row.
  unfoldable pub btc_fee_disposal : Entry D → Entry D
  unfolding fee_is_priced fee_currency decimal_value clipped_sats
  btc_fee_disposal e = record {
    id = text_append e.id "::btc_fee";
    kind = expense;
    timestamp = e.timestamp;
    depot_id = some (or_else e.depot_id "main");
    amount_btc = some (pos (clipped_sats e.fee_btc));
    price = if fee_is_priced e then some (decimal_value py e.price) else none;
    fee = some py.nought;
    currency = if fee_is_priced e then some (fee_currency e) else none;
    fee_btc = none;
    fee_btc_affects_stack = false;
    transaction_fee = true;
    source_entry_id = some e.id;
    source_type = some e.kind;
  }

  -- The rows that one row becomes.
  unfoldable pub with_fee_disposal : Entry D → List (Entry D)
  unfolding btc_fee_disposal clipped_sats
  with_fee_disposal e =
      e
      ∷ (if nat_eq (clipped_sats e.fee_btc) 0 || not e.fee_btc_affects_stack
          then []
          else btc_fee_disposal e ∷ [])

  unfoldable pub expanded : Kind → Entry D → List (Entry D)
  unfolding network_fee_disposal with_fee_disposal
  expanded network_fee e = network_fee_disposal e ∷ []
  expanded _ e = with_fee_disposal e

  unfoldable pub entries_with_btc_fee_disposals : List (Entry D) → List (Entry D)
  unfolding expanded
  entries_with_btc_fee_disposals [] = []
  entries_with_btc_fee_disposals (e ∷ es) = expanded e.kind e ++ entries_with_btc_fee_disposals es
