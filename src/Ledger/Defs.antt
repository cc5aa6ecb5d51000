-- ===== src/Ledger/Defs.antt =====
-- The types of the ledger: rows, kinds, timestamps and decimals.
use Prim.Native.Char.{code}
use Prim.Native.String.{String, [], ◌∷◌}
use bitcoin_stack_tracker.Common.{
  ℕ, ◌+◌, ◌-◌, ◌*◌, Bool, true, false, Option, none, some, nat_eq, if◌then◌else◌, or_else, not,
  ◌==◌, texts,
}
use bitcoin_stack_tracker.Common.Int.{ℤ, pos, pos_part}

-- The values of a row's `type`; `other` is any other text.
pub data Kind : Type 0 where
  purchase income stack sale expense network_fee other : Kind

-- `type in {"sale", "expense", "network_fee"}`
unfoldable pub is_outgoing : Kind → Bool
is_outgoing sale = true
is_outgoing expense = true
is_outgoing network_fee = true
is_outgoing _ = false

-- A UTC offset, east or west of Greenwich, in microseconds.
pub data UtcOffset : Type 0 where
  east west : ℕ → UtcOffset

-- A datetime: microseconds on the wall since 0001-01-01T00:00, and its offset unless it is naive.
pub record Datetime : Type 0 where
  pub wall : ℕ
  pub offset : Option UtcOffset

-- A timestamp field: a datetime, a text, or neither.
pub data TimeValue : Type 0 where
  moment : Datetime → TimeValue
  text : String → TimeValue
  missing : TimeValue

abbrev pub day : ℕ
day = 86_400_000_000

-- An instant counts microseconds from one day before 0001-01-01T00:00 UTC, so that no offset
-- (each is under a day) takes it below 0.
abbrev pub Instant : Type 0
Instant = ℕ

-- `datetime.max` at UTC, 9999-12-31T23:59:59.999999.
abbrev pub max_instant : Instant
max_instant = 3_652_059 * day + day - 1

-- `replace(tzinfo=timezone.utc)` where there is no offset, then `astimezone(timezone.utc)`.
unfoldable pub to_utc : Datetime → Instant
to_utc d = elim d.offset [
  | none ↦ d.wall + day
  | some (east m) ↦ d.wall + day - m
  | some (west m) ↦ d.wall + day + m
]

-- `value.replace("Z", "+00:00")`
unfoldable pub replace_z : String → String
replace_z [] = []
replace_z (c ∷ s) =
    let rest = replace_z s in
    if nat_eq (code c) b'Z' then "+" ∷ ("0" ∷ ("0" ∷ (":" ∷ ("0" ∷ ("0" ∷ rest))))) else c ∷ rest

-- What the calculations take from Python: `datetime.fromisoformat` (`none` is its ValueError),
-- `str.upper`, and `Decimal` arithmetic. `of_sats n` is the decimal n / 10^8.
pub record Python (D : Type 0) : Type 0 where
  pub fromisoformat : String → Option Datetime
  pub upper : String → String
  pub nought : D
  pub of_sats : ℕ → D
  pub plus : D → D → D
  pub minus : D → D → D
  pub times : D → D → D
  pub over : D → D → D
  pub is_positive : D → Bool

-- A ledger row. A numeric field is `none` where `decimal_value` falls back to 0, a text field
-- where the row has no such key. The fields from `transaction_fee` on are those that
-- `_entries_with_btc_fee_disposals` writes under names with a leading underscore.
pub record Entry (D : Type 0) : Type 0 where
  pub id : String
  pub kind : Kind
  pub timestamp : TimeValue
  pub depot_id : Option String
  pub amount_btc : Option ℤ
  pub price : Option D
  pub fee : Option D
  pub currency : Option String
  pub fee_btc : Option ℤ
  pub fee_btc_affects_stack : Bool
  pub transaction_fee : Bool
  pub source_entry_id : Option String
  pub source_type : Option Kind

-- `bool(text)`
unfoldable pub is_text : String → Bool
is_text s = not (s == "")

-- `decimal_value` of a BTC field, in satoshis.
unfoldable pub sats_value : Option ℤ → ℤ
sats_value amount = or_else amount (pos 0)

-- `max(decimal_value(amount), ZERO)`
unfoldable pub clipped_sats : Option ℤ → ℕ
unfolding sats_value
clipped_sats amount = pos_part (sats_value amount)

-- `str(item.get("depot_id", "main"))`
unfoldable pub depot_of : {D : Type 0} → Entry D → String
depot_of e = or_else e.depot_id "main"

module _ {D : Type 0} (py : Python D) where
  -- `decimal_value` of a fiat field.
  unfoldable pub decimal_value : Option D → D
  decimal_value value = or_else value py.nought

  -- `max(decimal_value(value), ZERO)`
  unfoldable pub clipped_value : Option D → D
  unfolding decimal_value
  clipped_value value =
      if py.is_positive (decimal_value value) then decimal_value value else py.nought

  -- `fifo._parse_timestamp`
  unfoldable pub parse_timestamp : TimeValue → Option Instant
  unfolding to_utc replace_z is_text
  parse_timestamp (moment d) = some (to_utc d)
  parse_timestamp (text s) =
      if is_text s
      then elim (py.fromisoformat (replace_z s)) [ none ↦ none | some d ↦ some (to_utc d) ]
      else none
  parse_timestamp missing = none
