-- ===== src/WalletWatch/Transaction/Format.antt =====
-- The serialization of transactions that the Bitcoin network uses.
use bitcoin_stack_tracker.Common.{
  ℕ, zero, suc, ◌/◌, ◌%◌, ◌^◌, ◌≤◌, ◌<◌, ◌≡◌, Option, none, some, List, [], ◌∷◌, ◌++◌,
  if◌then◌else◌, ltb, length, All,
}
use bitcoin_stack_tracker.WalletWatch.Transaction.{TxInput, TxOutput, ParsedTx, reversed, is_rbf}

-- The bytes of a number, the least first.
unfoldable pub little : ℕ → ℕ → List ℕ
little zero n = []
little (suc k) n = n % 256 ∷ little k (n / 256)

unfoldable pub varint : ℕ → List ℕ
unfolding little
varint n =
    if ltb n 0xFD
    then n ∷ []
    else if ltb n 0x1_0000
    then 0xFD ∷ little 2 n
    else if ltb n 0x1_0000_0000
    then 0xFE ∷ little 4 n
    else 0xFF ∷ little 8 n

-- An input with its script.
pub record Spent : Type 0 where
  pub input : TxInput
  pub script : List ℕ

pub record Tx : Type 0 where
  pub version : List ℕ
  pub spent : List Spent
  pub outputs : List TxOutput
  pub witnesses : Option (List (List (List ℕ)))
  pub locktime : List ℕ

unfoldable pub input_bytes : Spent → List ℕ → List ℕ
unfolding little varint reversed
input_bytes s rest =
    reversed s.input.txid []
    ++ (little 4 s.input.vout
        ++ (varint (length s.script) ++ (s.script ++ (little 4 s.input.sequence ++ rest))))

unfoldable pub inputs_bytes : List Spent → List ℕ → List ℕ
unfolding input_bytes
inputs_bytes [] rest = rest
inputs_bytes (s ∷ ss) rest = input_bytes s (inputs_bytes ss rest)

unfoldable pub output_bytes : TxOutput → List ℕ → List ℕ
unfolding little varint
output_bytes o rest = little 8 o.value_sats ++ (varint (length o.script) ++ (o.script ++ rest))

unfoldable pub outputs_bytes : List TxOutput → List ℕ → List ℕ
unfolding output_bytes
outputs_bytes [] rest = rest
outputs_bytes (o ∷ os) rest = output_bytes o (outputs_bytes os rest)

unfoldable pub items_bytes : List (List ℕ) → List ℕ → List ℕ
unfolding varint
items_bytes [] rest = rest
items_bytes (item ∷ items) rest = varint (length item) ++ (item ++ items_bytes items rest)

unfoldable pub witnesses_bytes : List (List (List ℕ)) → List ℕ → List ℕ
unfolding items_bytes varint
witnesses_bytes [] rest = rest
witnesses_bytes (items ∷ ws) rest =
    varint (length items) ++ items_bytes items (witnesses_bytes ws rest)

unfoldable pub body_bytes : Tx → List ℕ → List ℕ
unfolding inputs_bytes outputs_bytes varint
body_bytes t rest =
    varint (length t.spent)
    ++ inputs_bytes t.spent (varint (length t.outputs) ++ outputs_bytes t.outputs rest)

unfoldable pub serialize : Tx → List ℕ
unfolding body_bytes witnesses_bytes
serialize t = t.version ++ elim t.witnesses [
  | none ↦ body_bytes t t.locktime
  | some ws ↦ 0 ∷ 1 ∷ body_bytes t (witnesses_bytes ws t.locktime)
]

abbrev pub inputs_of : List Spent → List TxInput
inputs_of [] = []
inputs_of (s ∷ ss) = s.input ∷ inputs_of ss

-- What a reader needs to know of a transaction.
unfoldable pub overview : Tx → ParsedTx
unfolding is_rbf
overview t = record {
  inputs = inputs_of t.spent;
  outputs = t.outputs;
  rbf = is_rbf (inputs_of t.spent);
}

abbrev pub IsShort : List ℕ → Type 0
IsShort xs = length xs < 2 ^ 64

abbrev pub IsInput : Spent → Type 0
IsInput s =
    (length s.input.txid ≡ 32)
    × (s.input.vout < 2 ^ 32)
    × (s.input.sequence < 2 ^ 32)
    × IsShort s.script

abbrev pub IsOutput : TxOutput → Type 0
IsOutput o = (o.value_sats < 2 ^ 64) × IsShort o.script

abbrev pub IsWitness : List (List ℕ) → Type 0
IsWitness items = (length items < 2 ^ 64) × All IsShort items

abbrev pub AreWitnesses : ℕ → Option (List (List (List ℕ))) → Type 0
AreWitnesses n none = Unit
AreWitnesses n (some ws) = (length ws ≡ n) × All IsWitness ws

-- The fields have the sizes of the format; there is an input, and no more inputs and outputs than
-- the parser takes.
abbrev pub IsTx : Tx → Type 0
IsTx t =
    (length t.version ≡ 4)
    × (length t.locktime ≡ 4)
    × (1 ≤ length t.spent)
    × (length t.spent ≤ 100_000)
    × (length t.outputs ≤ 100_000)
    × All IsInput t.spent
    × All IsOutput t.outputs
    × AreWitnesses (length t.spent) t.witnesses
