-- ===== src/WalletWatch/Transaction.antt =====
-- `_read_varint` and `_parse_raw_transaction`. Where the source has an offset, the model has the
-- bytes from there on; a ValueError is none.
pub mod Format
pub mod Laws
pub mod RoundTrip
pub mod Bounds
use bitcoin_stack_tracker.Common.{
  ℕ, zero, suc, ◌+◌, ◌*◌, Bool, true, false, Option, none, some, List, [], ◌∷◌, ◌++◌, if◌then◌else◌,
  nat_eq, ltb, length, not, ◌&&◌, ◌||◌,
}
use bitcoin_stack_tracker.WalletWatch.Base58.{take, drop}

-- `int.from_bytes(raw, "little")`
unfoldable pub from_little : List ℕ → ℕ
from_little [] = 0
from_little (b ∷ bs) = b + 256 * from_little bs

-- `raw[::-1]`
unfoldable pub reversed : List ℕ → List ℕ → List ℕ
reversed [] ys = ys
reversed (x ∷ xs) ys = reversed xs (x ∷ ys)

unfoldable pub varint_size : ℕ → ℕ
varint_size first = if nat_eq first 0xFD then 2 else if nat_eq first 0xFE then 4 else 8

-- `_read_varint`: the number, and the bytes after it.
unfoldable pub read_varint : List ℕ → Option (ℕ × List ℕ)
unfolding from_little take drop varint_size
read_varint [] = none
read_varint (first ∷ raw) =
    if ltb first 0xFD
    then some (first, raw)
    else if ltb (length raw) (varint_size first)
    then none
    else some (from_little (take (varint_size first) raw), drop (varint_size first) raw)

-- An input; `txid` is the bytes of which the source keeps the hexadecimal text.
pub record TxInput : Type 0 where
  pub txid : List ℕ
  pub vout : ℕ
  pub sequence : ℕ

-- An output, without the address that its script gives.
pub record TxOutput : Type 0 where
  pub value_sats : ℕ
  pub script : List ℕ

pub record ParsedTx : Type 0 where
  pub inputs : List TxInput
  pub outputs : List TxOutput
  pub rbf : Bool

-- The sequence of an input, after its script.
unfoldable pub read_sequence : List ℕ → ℕ → List ℕ → Option (TxInput × List ℕ)
unfolding from_little take drop
read_sequence txid vout raw =
    if ltb (length raw) 4
    then none
    else some (record { txid = txid; vout = vout; sequence = from_little (take 4 raw) }, drop 4 raw)

unfoldable pub read_input : List ℕ → Option (TxInput × List ℕ)
unfolding read_sequence read_varint reversed
read_input raw = if ltb (length raw) 36 then none else elim (read_varint (drop 36 raw)) [
  | none ↦ none
  | some (script_len, after) ↦
      read_sequence (reversed (take 32 raw) []) (from_little (take 4 (drop 32 raw)))
        (drop script_len after)
]

unfoldable pub read_inputs : ℕ → List ℕ → Option (List TxInput × List ℕ)
unfolding read_input
read_inputs zero raw = some ([], raw)
read_inputs (suc n) raw = elim (read_input raw) [
  | none ↦ none
  | some (i, after) ↦ elim (read_inputs n after) [
    | none ↦ none
    | some (is, rest) ↦ some (i ∷ is, rest)
  ]
]

unfoldable pub read_output : List ℕ → Option (TxOutput × List ℕ)
unfolding read_varint from_little take drop
read_output raw = if ltb (length raw) 8 then none else elim (read_varint (drop 8 raw)) [
  | none ↦ none
  | some (script_len, after) ↦
      if ltb (length after) script_len
      then none
      else some (
        record { value_sats = from_little (take 8 raw); script = take script_len after },
        drop script_len after,
      )
]

unfoldable pub read_outputs : ℕ → List ℕ → Option (List TxOutput × List ℕ)
unfolding read_output
read_outputs zero raw = some ([], raw)
read_outputs (suc n) raw = elim (read_output raw) [
  | none ↦ none
  | some (o, after) ↦ elim (read_outputs n after) [
    | none ↦ none
    | some (os, rest) ↦ some (o ∷ os, rest)
  ]
]

-- One item of a witness, and all items of an input.
unfoldable pub skip_item : List ℕ → Option (List ℕ)
unfolding read_varint drop
skip_item raw = elim (read_varint raw) [
  | none ↦ none
  | some (item_len, after) ↦
      if ltb (length after) item_len then none else some (drop item_len after)
]

unfoldable pub skip_items : ℕ → List ℕ → Option (List ℕ)
unfolding skip_item
skip_items zero raw = some raw
skip_items (suc n) raw = elim (skip_item raw) [ none ↦ none | some after ↦ skip_items n after ]

unfoldable pub skip_witnesses : ℕ → List ℕ → Option (List ℕ)
unfolding skip_items read_varint
skip_witnesses zero raw = some raw
skip_witnesses (suc n) raw = elim (read_varint raw) [
  | none ↦ none
  | some (item_count, after) ↦ elim (skip_items item_count after) [
    | none ↦ none
    | some rest ↦ skip_witnesses n rest
  ]
]

-- The marker of a transaction with witnesses.
unfoldable pub is_segwit : List ℕ → Bool
is_segwit (marker ∷ flag ∷ raw) = nat_eq marker 0 && not (nat_eq flag 0)
is_segwit _ = false

unfoldable pub is_rbf : List TxInput → Bool
is_rbf [] = false
is_rbf (i ∷ is) = ltb i.sequence 0xFFFFFFFE || is_rbf is

-- What is left once the outputs are read: the witnesses, if any, and four bytes.
unfoldable pub finish : Bool → List TxInput → List TxOutput → ℕ → List ℕ → Option ParsedTx
unfolding skip_witnesses is_rbf
finish segwit inputs outputs input_count raw =
    elim (if segwit then skip_witnesses input_count raw else some raw) [
      | none ↦ none
      | some rest ↦
          if ltb (length rest) 4
          then none
          else some (record { inputs = inputs; outputs = outputs; rbf = is_rbf inputs })
    ]

-- From the number of outputs on.
unfoldable pub parse_outputs : Bool → List TxInput → ℕ → List ℕ → Option ParsedTx
unfolding read_varint read_outputs finish
parse_outputs segwit inputs input_count raw = elim (read_varint raw) [
  | none ↦ none
  | some (output_count, after) ↦
      if ltb 100_000 output_count then none else elim (read_outputs output_count after) [
        | none ↦ none
        | some (outputs, rest) ↦ finish segwit inputs outputs input_count rest
      ]
]

-- From the number of inputs on.
unfoldable pub parse_inputs : Bool → List ℕ → Option ParsedTx
unfolding read_varint read_inputs parse_outputs
parse_inputs segwit raw = elim (read_varint raw) [
  | none ↦ none
  | some (input_count, after) ↦
      if ltb 100_000 input_count then none else elim (read_inputs input_count after) [
        | none ↦ none
        | some (inputs, rest) ↦ parse_outputs segwit inputs input_count rest
      ]
]

-- `_parse_raw_transaction`, of the bytes that the hexadecimal text stands for.
unfoldable pub parse_raw_transaction : List ℕ → Option ParsedTx
unfolding is_segwit parse_inputs drop
parse_raw_transaction raw =
    let body = drop 4 raw in
    if ltb (length raw) 10
    then none
    else if is_segwit body
    then parse_inputs true (drop 2 body)
    else parse_inputs false body
