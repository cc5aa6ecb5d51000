-- ===== src/WalletWatch/Tests.antt =====
-- Addresses and transactions at concrete inputs.
use bitcoin_stack_tracker.Common.{
  false, ℕ, zero, suc, ◌+◌, ◌*◌, ◌≤◌, ◌≡◌, refl, some, List, [], ◌∷◌, ◌++◌, length, arith,
}
use bitcoin_stack_tracker.Security.State.{ok, error, value_error}
use bitcoin_stack_tracker.Ledger.Order.{codes}
use bitcoin_stack_tracker.WalletWatch.Base58.{b58decode, b58encode}
use bitcoin_stack_tracker.WalletWatch.Base58.Laws.{b58decode-b58encode, b58encode-b58decode}
use bitcoin_stack_tracker.WalletWatch.Address.{
  Cases, is_bech32, bech32_address, validate_mainnet_address, address_scriptpubkey,
  scriptpubkey_address,
}
use bitcoin_stack_tracker.WalletWatch.Address.Laws.{scriptpubkey_address-address_scriptpubkey}
use bitcoin_stack_tracker.WalletWatch.Transaction.{parse_raw_transaction}
use bitcoin_stack_tracker.WalletWatch.Transaction.Format.{Tx, IsTx, serialize, overview}
use bitcoin_stack_tracker.WalletWatch.Transaction.RoundTrip.{parse_raw_transaction-serialize}
use bitcoin_stack_tracker.WalletWatch.Transaction.Bounds.{parse_raw_transaction-bounded}

b58decode-b58encode_example :
    b58decode (b58encode (0 ∷ 0 ∷ 255 ∷ 1 ∷ [])) ≡ ok (0 ∷ 0 ∷ 255 ∷ 1 ∷ [])
b58decode-b58encode_example =
    b58decode-b58encode (0 ∷ 0 ∷ 255 ∷ 1 ∷ [])
      (omega arith, (omega arith, (omega arith, (omega arith, tt))))

-- "12z"
run_b58decode : b58decode (codes "12z") ≡ ok (0 ∷ 115 ∷ [])
unfolding b58decode codes
run_b58decode = refl

-- No character of base 58 is 0.
run_b58decode_error : b58decode (codes "10") ≡ error value_error
unfolding b58decode codes
run_b58decode_error = refl

b58encode-b58decode_example : b58encode (0 ∷ 115 ∷ []) ≡ codes "12z"
b58encode-b58decode_example = b58encode-b58decode (codes "12z") (0 ∷ 115 ∷ []) run_b58decode

abbrev zeros : ℕ → List ℕ
zeros zero = []
zeros (suc n) = 0 ∷ zeros n

abbrev example_tx : Tx
example_tx = record {
  version = 2 ∷ 0 ∷ 0 ∷ 0 ∷ [];
  spent =
      record {
        input = record { txid = 7 ∷ zeros 31; vout = 1; sequence = 0xFFFFFFFD };
        script = [];
      }
      ∷ [];
  outputs = record { value_sats = 5_000_000_000; script = 0x51 ∷ [] } ∷ [];
  witnesses = some (((1 ∷ 2 ∷ []) ∷ []) ∷ []);
  locktime = zeros 4;
}

example_tx-IsTx : IsTx example_tx
example_tx-IsTx = (
  refl,
  refl,
  omega arith,
  omega arith,
  omega arith,
  ((refl, omega arith, omega arith, omega arith), tt),
  ((omega arith, omega arith), tt),
  (refl, ((omega arith, (omega arith, tt)), tt)),
)

parse_raw_transaction-serialize_example :
    parse_raw_transaction (serialize example_tx) ≡ some (overview example_tx)
parse_raw_transaction-serialize_example = parse_raw_transaction-serialize example_tx example_tx-IsTx

-- Version, marker and flag, one input, one output, a witness of one item, locktime.
run_parse :
    parse_raw_transaction (
      2
      ∷ 0
      ∷ 0
      ∷ 0
      ∷ 0
      ∷ 1
      ∷ 1
      ∷ (zeros 31
          ++ 7
            ∷ 1
            ∷ 0
            ∷ 0
            ∷ 0
            ∷ 0
            ∷ 0xFD
            ∷ 0xFF
            ∷ 0xFF
            ∷ 0xFF
            ∷ 1
            ∷ 0
            ∷ 242
            ∷ 5
            ∷ 42
            ∷ 1
            ∷ 0
            ∷ 0
            ∷ 0
            ∷ 1
            ∷ 0x51
            ∷ 1
            ∷ 2
            ∷ 1
            ∷ 2
            ∷ zeros 4))
    ≡ some (overview example_tx)
unfolding parse_raw_transaction overview
run_parse = refl

run_serialized : parse_raw_transaction (serialize example_tx) ≡ some (overview example_tx)
unfolding parse_raw_transaction overview serialize
run_serialized = refl

parse_raw_transaction-bounded_example : 41 * 1 + 9 * 1 + 10 ≤ length (serialize example_tx)
unfolding overview
parse_raw_transaction-bounded_example =
    parse_raw_transaction-bounded (serialize example_tx) (overview example_tx) run_serialized

-- Texts in lower case, without blanks.
abbrev lower_cases : Cases
lower_cases = record { strip = λ s. s; lower = λ s. s; upper = λ s. [] }

abbrev no_hash : List ℕ → List ℕ
no_hash data_bytes = zeros 32

-- The address of BIP 173, and its program.
abbrev program : List ℕ
program =
    0x75 ∷ 0x1e ∷ 0x76 ∷ 0xe8 ∷ 0x19 ∷ 0x91 ∷ 0x96 ∷ 0xd4 ∷ 0x54 ∷ 0x94 ∷ 0x1c ∷ 0x45 ∷ 0xd1 ∷ 0xb3
    ∷ 0xa3 ∷ 0x23 ∷ 0xf1 ∷ 0x43 ∷ 0x3b ∷ 0xd6 ∷ []

run_bech32_address : bech32_address program 0 ≡ codes "bc1qw508d6qejxtdg4y5r3zarvary0c5xw7kv8f3t4"
unfolding bech32_address codes
run_bech32_address = refl

run_bech32_script :
    address_scriptpubkey lower_cases no_hash (codes "bc1qw508d6qejxtdg4y5r3zarvary0c5xw7kv8f3t4")
    ≡ ok (0 ∷ 20 ∷ program)
unfolding address_scriptpubkey codes
run_bech32_script = refl

run_bech32_error :
    address_scriptpubkey lower_cases no_hash (codes "bc1qw508d6qejxtdg4y5r3zarvary0c5xw7kv8f3t5")
    ≡ error value_error
unfolding address_scriptpubkey codes
run_bech32_error = refl

-- The address of twenty noughts, with the checksum 0 that `no_hash` gives.
abbrev burnt : List ℕ
burnt = codes "1111111111111111111111111"

run_validate : validate_mainnet_address lower_cases no_hash burnt ≡ ok burnt
unfolding validate_mainnet_address codes
run_validate = refl

run_is_bech32 : is_bech32 lower_cases burnt ≡ false
unfolding is_bech32 codes
run_is_bech32 = refl

scriptpubkey_address-address_scriptpubkey_example :
    (script : List ℕ) × (address_scriptpubkey lower_cases no_hash burnt ≡ ok script)
    × (scriptpubkey_address lower_cases no_hash script ≡ burnt)
scriptpubkey_address-address_scriptpubkey_example =
    scriptpubkey_address-address_scriptpubkey lower_cases no_hash burnt burnt run_is_bech32
      run_validate
