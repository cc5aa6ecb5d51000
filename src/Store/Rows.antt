-- ===== src/Store/Rows.antt =====
-- Timestamps, sort keys and identities of stored rows.
use Prim.Native.Char.{code}
use Prim.Native.String.{[], ◌∷◌}
use bitcoin_stack_tracker.Common.{
  ℕ, ◌+◌, ◌≡◌, Bool, true, Option, none, some, String, List, if◌then◌else◌, ltb, leb, nat_eq, ◌&&◌,
  ◌||◌, or_else, ◌==◌, texts, ◌↔◌, Comparable, nat_eq_iff, eq_iff, sym, ap, ◌∙◌, refl, arith,
}
use bitcoin_stack_tracker.Common.Int.{ℤ, pos_part, neg_part}
use bitcoin_stack_tracker.Ledger.{
  Kind, purchase, income, stack, sale, expense, network_fee, other, max_instant, Python, TimeValue,
  text, moment, missing, Instant, to_utc, replace_z, is_text, sats_value, decimal_value,
  is_outgoing,
}
use bitcoin_stack_tracker.Ledger.Order.{SortKey, key_le, codes, sorted}
use bitcoin_stack_tracker.Store.Data.{Texts, Row, default_depot_id}

-- Five minutes, in microseconds.
abbrev pub max_ledger_future_skew : ℕ
max_ledger_future_skew = 300_000_000

-- `len(s)`
unfoldable pub text_length : String → ℕ
text_length [] = 0
text_length (c ∷ s) = text_length s + 1

unfoldable pub is_hex : ℕ → Bool
is_hex c = leb b'0' c && leb c b'9' || leb b'a' c && leb c b'f'

unfoldable pub all_hex : String → Bool
unfolding is_hex
all_hex [] = true
all_hex (c ∷ s) = is_hex (code c) && all_hex s

-- `re.fullmatch(r"[0-9a-f]{64}", s)`
unfoldable pub is_hash : String → Bool
unfolding text_length all_hex
is_hash s = nat_eq (text_length s) 64 && all_hex s

module _ {D : Type 0} (py : Python D) (tx : Texts D) where
  -- The instant that `_normalized_utc_timestamp` writes; none is its ValueError.
  unfoldable pub utc_instant : TimeValue → Option Instant
  unfolding to_utc replace_z
  utc_instant (moment d) = some (to_utc d)
  utc_instant (text s) = elim (py.fromisoformat (replace_z s)) [
    | none ↦ none
    | some d ↦ some (to_utc d)
  ]
  utc_instant missing = elim (py.fromisoformat "") [ none ↦ none | some d ↦ some (to_utc d) ]

  unfoldable pub normalized_utc_timestamp : TimeValue → Option String
  unfolding utc_instant
  normalized_utc_timestamp value = elim (utc_instant value) [
    | none ↦ none
    | some instant ↦ some (tx.isoformat instant)
  ]

  -- The normalized timestamp, unless it lies more than five minutes after `now`.
  unfoldable pub validated_ledger_timestamp : Instant → TimeValue → Option String
  unfolding normalized_utc_timestamp utc_instant
  validated_ledger_timestamp now value = elim (normalized_utc_timestamp value) [
    | none ↦ none
    | some normalized ↦ elim (utc_instant (text normalized)) [
      | none ↦ none
      | some instant ↦ if ltb (now + max_ledger_future_skew) instant then none else some normalized
    ]
  ]

  -- `_import_ref_hash`: the empty text for none.
  unfoldable pub import_ref_hash : Row D → String
  unfolding is_hash
  import_ref_hash r =
      let value = tx.lower (tx.strip r.import_ref_hash) in if is_hash value then value else ""

  -- `str(item.get("timestamp") or "")`, normalized if it can be read, as a datetime always can.
  unfoldable pub fingerprint_time : TimeValue → String
  unfolding normalized_utc_timestamp
  fingerprint_time (moment d) = or_else (normalized_utc_timestamp (moment d)) ""
  fingerprint_time (text s) = or_else (normalized_utc_timestamp (text s)) s
  fingerprint_time missing = or_else (normalized_utc_timestamp missing) ""

-- The tuple of `_transaction_fingerprint`; amounts in satoshis.
pub record Fingerprint : Type 0 where
  pub kind : Kind
  pub timestamp : String
  pub depot_id : String
  pub amount_btc : ℤ
  pub currency : String
  pub price : String
  pub fee : String
  pub fee_btc : ℤ

kind_code : Kind → ℕ
kind_code purchase = 0
kind_code income = 1
kind_code stack = 2
kind_code sale = 3
kind_code expense = 4
kind_code network_fee = 5
kind_code other = 6

kind_of : ℕ → Kind
kind_of n =
    if nat_eq n 0
    then purchase
    else if nat_eq n 1
    then income
    else if nat_eq n 2
    then stack
    else if nat_eq n 3
    then sale
    else if nat_eq n 4
    then expense
    else if nat_eq n 5
    then network_fee
    else other

kind_of-kind_code : (k : Kind) → kind_of (kind_code k) ≡ k
unfolding kind_of kind_code
kind_of-kind_code purchase = refl
kind_of-kind_code income = refl
kind_of-kind_code stack = refl
kind_of-kind_code sale = refl
kind_of-kind_code expense = refl
kind_of-kind_code network_fee = refl
kind_of-kind_code other = refl

unfoldable pub same_kind : Kind → Kind → Bool
unfolding kind_code
same_kind a b = nat_eq (kind_code a) (kind_code b)

pub same_kind_iff : (a b : Kind) → (same_kind a b ≡ true) ↔ (a ≡ b)
unfolding same_kind
same_kind_iff a b = (
  (λ h.
      sym (kind_of-kind_code a)
      ∙ (ap kind_of ((nat_eq_iff (kind_code a) (kind_code b)).0 h) ∙ kind_of-kind_code b)),
  λ e. (nat_eq_iff (kind_code a) (kind_code b)).1 (ap kind_code e),
)

unfoldable pub same_int : ℤ → ℤ → Bool
same_int a b = nat_eq (pos_part a) (pos_part b) && nat_eq (neg_part a) (neg_part b)

pub same_int_iff : (a b : ℤ) → (same_int a b ≡ true) ↔ (a ≡ b)
unfolding same_int
same_int_iff a b = ground arith

unfoldable pub same_fingerprint : Fingerprint → Fingerprint → Bool
unfolding same_kind same_int
same_fingerprint a b =
    same_kind a.kind b.kind
    && (a.timestamp == b.timestamp
        && (a.depot_id == b.depot_id
            && (same_int a.amount_btc b.amount_btc
                && (a.currency == b.currency
                    && (a.price == b.price && (a.fee == b.fee && same_int a.fee_btc b.fee_btc))))))

pub same_fingerprint_iff : (a b : Fingerprint) → (same_fingerprint a b ≡ true) ↔ (a ≡ b)
unfolding same_fingerprint
same_fingerprint_iff a b = ground (
  arith,
  same_kind_iff a.kind b.kind,
  eq_iff a.timestamp b.timestamp,
  eq_iff a.depot_id b.depot_id,
  same_int_iff a.amount_btc b.amount_btc,
  eq_iff a.currency b.currency,
  eq_iff a.price b.price,
  eq_iff a.fee b.fee,
  same_int_iff a.fee_btc b.fee_btc,
)

instance abbrev pub fingerprints : Comparable Fingerprint
fingerprints = record { same = same_fingerprint; same_iff = same_fingerprint_iff }

module _ {D : Type 0} (py : Python D) (tx : Texts D) where
  unfoldable pub transaction_fingerprint : Row D → Fingerprint
  unfolding fingerprint_time sats_value decimal_value is_text
  transaction_fingerprint r =
      let e = r.entry in
      let depot = or_else e.depot_id "" in
      record {
        kind = e.kind;
        timestamp = fingerprint_time py tx e.timestamp;
        depot_id = if is_text depot then depot else default_depot_id;
        amount_btc = sats_value e.amount_btc;
        currency = py.upper (or_else e.currency "");
        price = tx.money_text (decimal_value py e.price);
        fee = tx.money_text (decimal_value py e.fee);
        fee_btc = sats_value e.fee_btc;
      }

  -- `_same_transaction_identity`
  unfoldable pub same_transaction_identity : Row D → Row D → Bool
  unfolding import_ref_hash transaction_fingerprint is_text same_fingerprint
  same_transaction_identity left right =
      let left_ref = import_ref_hash py tx left in
      let right_ref = import_ref_hash py tx right in
      if is_text left_ref && is_text right_ref
      then left_ref == right_ref
      else transaction_fingerprint left == transaction_fingerprint right

  -- `_ledger_sort_key`
  unfoldable pub ledger_sort_key : Row D → SortKey
  unfolding utc_instant is_outgoing codes
  ledger_sort_key r = record {
    instant = or_else (utc_instant py tx r.entry.timestamp) max_instant;
    side = if is_outgoing r.entry.kind then 1 else 0;
    id = codes r.entry.id;
  }

  unfoldable pub row_le : Row D → Row D → Bool
  unfolding ledger_sort_key key_le
  row_le a b = key_le (ledger_sort_key a) (ledger_sort_key b)

  -- `rows.sort(key=_ledger_sort_key)`
  unfoldable pub sorted_rows : List (Row D) → List (Row D)
  unfolding row_le sorted
  sorted_rows = sorted row_le
