-- ===== src/WalletWatch/Base58.antt =====
-- `_b58decode`, `_b58encode` and their forms with a checksum. A text is the list of its characters'
-- codes, `bytes` a list of numbers; `sha256` is that of hashlib.
pub mod Laws
use bitcoin_stack_tracker.Common.{
  ℕ, zero, suc, ◌+◌, ◌-◌, ◌*◌, ◌/◌, ◌%◌, Bool, true, false, Option, none, some, List, [], ◌∷◌, ◌++◌,
  if◌then◌else◌, nat_eq, ltb, get_elem?, or_else, length, not, ◌||◌, String,
}
use bitcoin_stack_tracker.Ledger.Order.{codes, codes_le}
use bitcoin_stack_tracker.Security.State.{Result, ok, error, Error, value_error}
use bitcoin_stack_tracker.WalletWatch.Digits.{from_digits, digits, leading, noughts}

-- `_B58`
unfoldable pub b58 : List ℕ
unfolding codes
b58 = codes "123456789ABCDEFGHJKLMNPQRSTUVWXYZabcdefghijkmnopqrstuvwxyz"

-- `_B58[d]`
unfoldable pub b58_char : ℕ → ℕ
unfolding b58
b58_char d = or_else (get_elem? b58 d) 0

unfoldable pub index_in : ℕ → List ℕ → Option ℕ
index_in c [] = none
index_in c (x ∷ xs) =
    let rest = index_in c xs in
    if nat_eq x c then some 0 else elim rest [ none ↦ none | some i ↦ some (suc i) ]

-- `_B58_MAP.get(c)`
unfoldable pub b58_map : ℕ → Option ℕ
unfolding b58 index_in
b58_map c = index_in c b58

-- `len(value) - len(value.lstrip("1"))`
unfoldable pub leading_ones : List ℕ → ℕ
leading_ones [] = 0
leading_ones (c ∷ cs) = let rest = leading_ones cs in if nat_eq c b'1' then suc rest else 0

-- `"1" * n`, before a text.
unfoldable pub ones : ℕ → List ℕ → List ℕ
ones zero cs = cs
ones (suc n) cs = b'1' ∷ ones n cs

-- The loop of `_b58decode`.
unfoldable pub b58_number : ℕ → List ℕ → Option ℕ
unfolding b58_map
b58_number number [] = some number
b58_number number (c ∷ cs) = elim (b58_map c) [
  | none ↦ none
  | some d ↦ b58_number (number * 58 + d) cs
]

-- `to_bytes` of the bytes that the number takes is its digits to the base 256.
unfoldable pub b58decode : List ℕ → Result (List ℕ)
unfolding b58_number leading_ones digits noughts
b58decode value = elim (b58_number 0 value) [
  | none ↦ error value_error
  | some number ↦ ok (noughts (leading_ones value) (digits 256 number))
]

-- The loop of `_b58encode`; it has no more rounds than the number.
unfoldable pub b58_chars : ℕ → ℕ → List ℕ → List ℕ
unfolding b58_char
b58_chars fuel zero chars = chars
b58_chars zero (suc n) chars = chars
b58_chars (suc fuel) (suc n) chars = b58_chars fuel (suc n / 58) (b58_char (suc n % 58) ∷ chars)

unfoldable pub b58encode : List ℕ → List ℕ
unfolding b58_chars from_digits leading ones
b58encode data_bytes =
    let number = from_digits 256 0 data_bytes in
    ones (leading data_bytes) (b58_chars number number [])

unfoldable pub take : ℕ → List ℕ → List ℕ
take zero xs = []
take (suc n) [] = []
take (suc n) (x ∷ xs) = x ∷ take n xs

unfoldable pub drop : ℕ → List ℕ → List ℕ
drop zero xs = xs
drop (suc n) [] = []
drop (suc n) (x ∷ xs) = drop n xs

-- Equality of bytes, by the order of lists.
unfoldable pub same_bytes : List ℕ → List ℕ → Bool
same_bytes [] [] = true
same_bytes (x ∷ xs) (y ∷ ys) = if nat_eq x y then same_bytes xs ys else false
same_bytes _ _ = false

module _ (sha256 : List ℕ → List ℕ) where
  unfoldable pub checksum : List ℕ → List ℕ
  unfolding take
  checksum raw = take 4 (sha256 (sha256 raw))

  -- `raw[:-4]` and `raw[-4:]` of the decoded bytes.
  unfoldable pub b58check_decode : List ℕ → Result (List ℕ)
  unfolding b58decode take drop checksum same_bytes
  b58check_decode value = elim (b58decode value) [
    | error e ↦ error e
    | ok raw ↦
        let split = length raw - 4 in
        if ltb (length raw) 5 || not (same_bytes (checksum (take split raw)) (drop split raw))
        then error value_error
        else ok (take split raw)
  ]

  unfoldable pub b58check : List ℕ → List ℕ → List ℕ
  unfolding b58encode checksum
  b58check prefix payload = b58encode ((prefix ++ payload) ++ checksum (prefix ++ payload))
