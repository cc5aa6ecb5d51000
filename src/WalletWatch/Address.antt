-- ===== src/WalletWatch/Address.antt =====
-- Addresses and scripts: bech32, `validate_mainnet_address`, `_address_scriptpubkey` and
-- `_scriptpubkey_address`. Shifts and masks are products, quotients and remainders by powers of 2.
pub mod Laws
use Prim.Native.Nat.{bit_xor}
use bitcoin_stack_tracker.Common.{
  ℕ, zero, suc, ◌+◌, ◌-◌, ◌*◌, ◌/◌, ◌%◌, ◌^◌, Bool, true, false, Option, none, some, List, [], ◌∷◌,
  ◌++◌, if◌then◌else◌, nat_eq, ltb, leb, get_elem?, or_else, length, not, ◌&&◌, ◌||◌,
}
use bitcoin_stack_tracker.Ledger.Order.{codes}
use bitcoin_stack_tracker.Security.State.{Result, ok, error, Error, value_error}
use bitcoin_stack_tracker.WalletWatch.Base58.{
  index_in, take, drop, same_bytes, b58check_decode, b58check,
}

-- `chk ^= gen` for the generators whose bit is set in `top`.
unfoldable pub xor_generators : ℕ → List ℕ → ℕ → ℕ
xor_generators top [] chk = chk
xor_generators top (gen ∷ gens) chk =
    xor_generators (top / 2) gens (if nat_eq (top % 2) 1 then bit_xor chk gen else chk)

unfoldable pub polymod_loop : ℕ → List ℕ → ℕ
unfolding xor_generators
polymod_loop chk [] = chk
polymod_loop chk (value ∷ values) =
    polymod_loop
      (xor_generators (chk / 2 ^ 25)
        (0x3B6A57B2 ∷ 0x26508E6D ∷ 0x1EA119FA ∷ 0x3D4233DD ∷ 0x2A1462B3 ∷ [])
        (bit_xor (chk % 2 ^ 25 * 32) value))
      values

unfoldable pub bech32_polymod : List ℕ → ℕ
unfolding polymod_loop
bech32_polymod values = polymod_loop 1 values

unfoldable pub high_bits : List ℕ → List ℕ
high_bits [] = []
high_bits (c ∷ cs) = c / 32 ∷ high_bits cs

unfoldable pub low_bits : List ℕ → List ℕ
low_bits [] = []
low_bits (c ∷ cs) = c % 32 ∷ low_bits cs

unfoldable pub bech32_hrp_expand : List ℕ → List ℕ
unfolding high_bits low_bits
bech32_hrp_expand hrp = high_bits hrp ++ 0 ∷ low_bits hrp

-- The `while bits >= tobits` of `_convertbits`: the bits that are left, and the groups.
unfoldable pub emit_groups : ℕ → ℕ → ℕ → ℕ → ℕ × List ℕ
emit_groups tobits acc zero bits = (bits, [])
emit_groups tobits acc (suc fuel) bits =
    let (left, groups) = emit_groups tobits acc fuel (bits - tobits) in
    if ltb bits tobits then (bits, []) else (left, acc / 2 ^ (bits - tobits) % 2 ^ tobits ∷ groups)

-- `_convertbits` from the state of its loop on; a group has a bit, so that there are no more than
-- `bits` groups.
unfoldable pub convert_loop : ℕ → ℕ → Bool → ℕ → ℕ → List ℕ → Result (List ℕ)
unfolding emit_groups
convert_loop frombits tobits pad acc bits [] =
    let last = acc * 2 ^ (tobits - bits) % 2 ^ tobits in
    if pad
    then ok (if nat_eq bits 0 then [] else last ∷ [])
    else if leb frombits bits || not (nat_eq last 0)
    then error value_error
    else ok []
convert_loop frombits tobits pad acc bits (value ∷ values) =
    let acc = (acc * 2 ^ frombits + value) % 2 ^ (frombits + tobits - 1) in
    let (left, groups) = emit_groups tobits acc (bits + frombits) (bits + frombits) in
    let rest = convert_loop frombits tobits pad acc left values in
    if leb (2 ^ frombits) value
    then error value_error
    else elim rest [ error e ↦ error e | ok more ↦ ok (groups ++ more) ]

unfoldable pub convertbits : List ℕ → ℕ → ℕ → Bool → Result (List ℕ)
unfolding convert_loop
convertbits values frombits tobits pad = convert_loop frombits tobits pad 0 0 values

unfoldable pub bech32_charset : List ℕ
unfolding codes
bech32_charset = codes "qpzry9x8gf2tvdw0s3jn54khce6mua7l"

unfoldable pub bech32_chars : List ℕ → List ℕ
unfolding bech32_charset
bech32_chars [] = []
bech32_chars (d ∷ ds) = or_else (get_elem? bech32_charset d) 0 ∷ bech32_chars ds

unfoldable pub bech32_values : List ℕ → Option (List ℕ)
unfolding bech32_charset index_in
bech32_values [] = some []
bech32_values (c ∷ cs) = elim (index_in c bech32_charset) [
  | none ↦ none
  | some d ↦ elim (bech32_values cs) [ none ↦ none | some ds ↦ some (d ∷ ds) ]
]

-- The six groups of five bits, the highest first.
unfoldable pub checksum_groups : ℕ → List ℕ
checksum_groups p =
    p / 2 ^ 25 % 32
    ∷ p / 2 ^ 20 % 32
    ∷ p / 2 ^ 15 % 32
    ∷ p / 2 ^ 10 % 32
    ∷ p / 2 ^ 5 % 32
    ∷ p % 32
    ∷ []

-- `_bech32_address`; the program is bytes, so that `_convertbits` does not fail.
unfoldable pub bech32_address : List ℕ → ℕ → List ℕ
unfolding convertbits bech32_polymod bech32_hrp_expand checksum_groups bech32_chars codes
bech32_address program witness_version =
    let groups : List ℕ = elim (convertbits program 8 5 true) [ error e ↦ [] | ok ds ↦ ds ] in
    let values =
      bech32_hrp_expand (codes "bc") ++ (witness_version ∷ groups ++ 0 ∷ 0 ∷ 0 ∷ 0 ∷ 0 ∷ 0 ∷ []) in
    let const = if nat_eq witness_version 0 then 1 else 0x2BC830A3 in
    codes "bc1"
    ++ bech32_chars
        (witness_version ∷ groups ++ checksum_groups (bit_xor (bech32_polymod values) const))

-- `value.rfind("1")`; none for -1.
unfoldable pub last_one : List ℕ → Option ℕ
last_one [] = none
last_one (c ∷ cs) = elim (last_one cs) [
  | some i ↦ some (suc i)
  | none ↦ if nat_eq c b'1' then some 0 else none
]

-- A decoded bech32 text: its prefix, its values without the checksum, and the encoding.
pub record Bech32 : Type 0 where
  pub hrp : List ℕ
  pub values : List ℕ
  pub encoding : ℕ

-- `str.strip`, `str.lower` and `str.upper`.
pub record Cases : Type 0 where
  pub strip : List ℕ → List ℕ
  pub lower : List ℕ → List ℕ
  pub upper : List ℕ → List ℕ

-- The checksum of a text split at its last 1.
unfoldable pub bech32_checked : List ℕ → List ℕ → Result Bech32
unfolding bech32_polymod bech32_hrp_expand take
bech32_checked hrp ds =
    let polymod = bech32_polymod (bech32_hrp_expand hrp ++ ds) in
    let values = take (length ds - 6) ds in
    if nat_eq polymod 1
    then ok (record { hrp = hrp; values = values; encoding = 1 })
    else if nat_eq polymod 0x2BC830A3
    then ok (record { hrp = hrp; values = values; encoding = 2 })
    else error value_error

unfoldable pub bech32_decode : Cases → List ℕ → Result Bech32
unfolding last_one bech32_values bech32_checked same_bytes take drop
bech32_decode py address =
    let value = py.lower address in
    if not (same_bytes value address) && not (same_bytes (py.upper address) address)
    then error value_error
    else elim (last_one value) [
      | none ↦ error value_error
      | some pos ↦
          if ltb pos 1 || ltb (length value) (pos + 7)
          then error value_error
          else elim (bech32_values (drop (pos + 1) value)) [
            | none ↦ error value_error
            | some ds ↦ bech32_checked (take pos value) ds
          ]
    ]

-- `value.lower().startswith("bc1")`
unfoldable pub is_bech32 : Cases → List ℕ → Bool
unfolding same_bytes take codes
is_bech32 py value = same_bytes (take 3 (py.lower value)) (codes "bc1")

-- The witness version and program, checked as `validate_mainnet_address` does.
unfoldable pub witness_program : Bech32 → Result (ℕ × List ℕ)
unfolding convertbits same_bytes codes
witness_program b = elim b.values [
  | [] ↦ error value_error
  | witver ∷ groups ↦
      if not (same_bytes b.hrp (codes "bc"))
      then error value_error
      else elim (convertbits groups 5 8 false) [
        | error e ↦ error e
        | ok program ↦
            let size = length program in
            if ltb 16 witver || ltb size 2 || ltb 40 size
            then error value_error
            else if nat_eq witver 0
                && (not (nat_eq b.encoding 1) || not (nat_eq size 20 || nat_eq size 32))
            then error value_error
            else if ltb 0 witver && not (nat_eq b.encoding 2)
            then error value_error
            else ok (witver, program)
      ]
]

module _ (py : Cases) (sha256 : List ℕ → List ℕ) where
  -- The part of an address of base 58, after the length.
  unfoldable pub validate_base58 : List ℕ → Result (List ℕ)
  unfolding b58check_decode
  validate_base58 value = elim (b58check_decode sha256 value) [
    | error e ↦ error e
    | ok [] ↦ error value_error
    | ok (version ∷ payload) ↦
        if not (nat_eq (length payload) 20) || not (nat_eq version 0 || nat_eq version 5)
        then error value_error
        else ok value
  ]

  unfoldable pub validate_mainnet_address : List ℕ → Result (List ℕ)
  unfolding is_bech32 bech32_decode witness_program validate_base58
  validate_mainnet_address address =
      let value = py.strip address in
      if nat_eq (length value) 0 || ltb 100 (length value)
      then error value_error
      else if is_bech32 py value
      then elim (bech32_decode py value) [
        | error e ↦ error e
        | ok b ↦ elim (witness_program b) [ error e ↦ error e | ok program ↦ ok (py.lower value) ]
      ]
      else validate_base58 value

  unfoldable pub base58_script : List ℕ → Result (List ℕ)
  unfolding b58check_decode
  base58_script value = elim (b58check_decode sha256 value) [
    | error e ↦ error e
    | ok [] ↦ error value_error
    | ok (version ∷ payload) ↦
        if nat_eq version 0
        then ok (0x76 ∷ 0xA9 ∷ 0x14 ∷ payload ++ 0x88 ∷ 0xAC ∷ [])
        else if nat_eq version 5
        then ok (0xA9 ∷ 0x14 ∷ payload ++ 0x87 ∷ [])
        else error value_error
  ]

  unfoldable pub bech32_script : List ℕ → Result (List ℕ)
  unfolding bech32_decode convertbits
  bech32_script value = elim (bech32_decode py value) [
    | error e ↦ error e
    | ok b ↦ elim b.values [
      | [] ↦ error value_error
      | version ∷ groups ↦ elim (convertbits groups 5 8 false) [
        | error e ↦ error e
        | ok program ↦
            ok ((if nat_eq version 0 then 0 else 0x50 + version) ∷ length program ∷ program)
      ]
    ]
  ]

  unfoldable pub address_scriptpubkey : List ℕ → Result (List ℕ)
  unfolding validate_mainnet_address is_bech32 bech32_script base58_script
  address_scriptpubkey address = elim (validate_mainnet_address address) [
    | error e ↦ error e
    | ok value ↦ if is_bech32 py value then bech32_script value else base58_script value
  ]

  -- The last branch of `_scriptpubkey_address`; the empty text for no address.
  unfoldable pub witness_address : List ℕ → List ℕ
  unfolding bech32_address
  witness_address (op ∷ size ∷ program) =
      let known = nat_eq op 0 || leb 0x51 op && leb op 0x60 in
      let sized = nat_eq size (length program) && (leb 2 size && leb size 40) in
      if known && sized then bech32_address program (if nat_eq op 0 then 0 else op - 0x50) else []
  witness_address _ = []

  unfoldable pub scriptpubkey_address : List ℕ → List ℕ
  unfolding b58check witness_address take drop same_bytes
  scriptpubkey_address script =
      let size = length script in
      if nat_eq size 25
        && (same_bytes (take 3 script) (0x76 ∷ 0xA9 ∷ 0x14 ∷ [])
            && same_bytes (drop 23 script) (0x88 ∷ 0xAC ∷ []))
      then b58check sha256 (0 ∷ []) (take 20 (drop 3 script))
      else if nat_eq size 23
          && (same_bytes (take 2 script) (0xA9 ∷ 0x14 ∷ [])
              && same_bytes (drop 22 script) (0x87 ∷ []))
      then b58check sha256 (5 ∷ []) (take 20 (drop 2 script))
      else if leb 4 size
      then witness_address script
      else []
