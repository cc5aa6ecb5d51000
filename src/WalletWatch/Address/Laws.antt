-- ===== src/WalletWatch/Address/Laws.antt =====
-- The script of an address of base 58 is that of this address.
use bitcoin_stack_tracker.Common.{
  ℕ, zero, suc, ◌-◌, ◌≡◌, refl, sym, ap, ◌∙◌, true, false, List, [], ◌∷◌, ◌++◌, nat_eq, nat_eq_iff,
  ltb, length, length-append, ◌||◌, ◌⊎◌, arith, inl, inr, Bool-cases,
}
use bitcoin_stack_tracker.Security.State.{Result, ok, error, Error}
use bitcoin_stack_tracker.WalletWatch.Base58.{
  take, drop, same_bytes, checksum, b58decode, b58encode, b58check_decode, b58check,
}
use bitcoin_stack_tracker.WalletWatch.Base58.Laws.{b58encode-b58decode}
use bitcoin_stack_tracker.WalletWatch.Transaction.Laws.{take-exactly, drop-exactly}
use bitcoin_stack_tracker.WalletWatch.Address.{
  Cases, is_bech32, validate_base58, validate_mainnet_address, base58_script, address_scriptpubkey,
  scriptpubkey_address,
}

same_bytes-same : (xs ys : List ℕ) → same_bytes xs ys ≡ true → xs ≡ ys
unfolding same_bytes
same_bytes-same [] [] h = refl
same_bytes-same [] (y ∷ ys) h = absurd (cc)
same_bytes-same (x ∷ xs) [] h = absurd (cc)
same_bytes-same (x ∷ xs) (y ∷ ys) h = elim (Bool-cases (nat_eq x y)) [
  | inl e ↦
      let rest : same_bytes xs ys ≡ true = ground (arith, e) in
      ap (λ z. z ∷ xs) ((nat_eq_iff x y).0 e) ∙ ap (λ zs. y ∷ zs) (same_bytes-same xs ys rest)
  | inr e ↦ absurd (ground (arith, e))
]

take-drop : (n : ℕ) (xs : List ℕ) → take n xs ++ drop n xs ≡ xs
unfolding take drop
take-drop zero xs = refl
take-drop (suc n) [] = refl
take-drop (suc n) (x ∷ xs) = ap (λ ys. x ∷ ys) (take-drop n xs)

-- Whether two results differ is seen from their constructors.
Result-cases : (r : Result (List ℕ)) → ((e : Error) × (r ≡ error e)) ⊎ ((xs : List ℕ) × (r ≡ ok xs))
Result-cases (error e) = inl (e, refl)
Result-cases (ok xs) = inr (xs, refl)

module _ (py : Cases) (sha256 : List ℕ → List ℕ) where
  -- What is decoded is encoded again with its checksum.
  b58check_decode-encode :
      (value decoded : List ℕ)
      → b58check_decode sha256 value ≡ ok decoded
      → b58encode (decoded ++ checksum sha256 decoded) ≡ value
  unfolding b58check_decode
  b58check_decode-encode value decoded h = elim (Result-cases (b58decode value)) [
    | inl (e, r) ↦ absurd (ground (arith, r))
    | inr (raw, r) ↦
        let split = length raw - 4 in
        elim (Bool-cases (same_bytes (checksum sha256 (take split raw)) (drop split raw))) [
          | inl s ↦
              let d : take split raw ≡ decoded = ground (arith, r, s) in
              let sum = same_bytes-same (checksum sha256 (take split raw)) (drop split raw) s in
              ap (λ x. b58encode (x ++ checksum sha256 x)) (sym d)
              ∙ (ap (λ x. b58encode (take split raw ++ x)) sum
                  ∙ (ap b58encode (take-drop split raw) ∙ b58encode-b58decode value raw r))
          | inr s ↦ absurd (ground (arith, r, s))
        ]
  ]

  validate_base58-parts :
      (value v : List ℕ)
      → validate_base58 py sha256 value ≡ ok v
      → (version : ℕ) × (payload : List ℕ) × (b58check_decode sha256 value ≡ ok (version ∷ payload))
        × (length payload ≡ 20)
        × ((version ≡ 0) ⊎ (version ≡ 5))
        × (value ≡ v)
  unfolding validate_base58
  validate_base58-parts value v h = elim (Result-cases (b58check_decode sha256 value)) [
    | inl (e, r) ↦ absurd (ground (arith, r))
    | inr ([], r) ↦ absurd (ground (arith, r))
    | inr (version ∷ payload, r) ↦
        (version, payload, r, ground (arith, r), ground (arith, r), ground (arith, r))
  ]

  p2pkh :
      (payload : List ℕ)
      → length payload ≡ 20
      → scriptpubkey_address py sha256 (0x76 ∷ 0xA9 ∷ 0x14 ∷ payload ++ 0x88 ∷ 0xAC ∷ [])
        ≡ b58check sha256 (0 ∷ []) payload
  unfolding scriptpubkey_address take drop same_bytes
  p2pkh payload h =
      let tail : List ℕ = 0x88 ∷ 0xAC ∷ [] in
      let size : length (payload ++ tail) ≡ 22 = omega (arith, length-append payload tail, h) in
      rw (size, take-exactly 20 payload tail h, drop-exactly 20 payload tail h) refl

  p2sh :
      (payload : List ℕ)
      → length payload ≡ 20
      → scriptpubkey_address py sha256 (0xA9 ∷ 0x14 ∷ payload ++ 0x87 ∷ [])
        ≡ b58check sha256 (5 ∷ []) payload
  unfolding scriptpubkey_address take drop same_bytes
  p2sh payload h =
      let tail : List ℕ = 0x87 ∷ [] in
      let size : length (payload ++ tail) ≡ 21 = omega (arith, length-append payload tail, h) in
      rw (size, take-exactly 20 payload tail h, drop-exactly 20 payload tail h) refl

  b58check-encode :
      (value payload : List ℕ) (version : ℕ)
      → b58check_decode sha256 value ≡ ok (version ∷ payload)
      → b58check sha256 (version ∷ []) payload ≡ value
  unfolding b58check
  b58check-encode value payload version h = b58check_decode-encode value (version ∷ payload) h

  base58_script-back :
      (value payload : List ℕ) (version : ℕ)
      → b58check_decode sha256 value ≡ ok (version ∷ payload)
      → length payload ≡ 20
      → (version ≡ 0) ⊎ (version ≡ 5)
      → (script : List ℕ) × (base58_script py sha256 value ≡ ok script)
        × (scriptpubkey_address py sha256 script ≡ value)
  unfolding base58_script
  base58_script-back value payload version h size (inl zero_version) =
      let e : b58check_decode sha256 value ≡ ok (0 ∷ payload) =
        h ∙ ap (λ x. ok (x ∷ payload)) zero_version in
      (
        0x76 ∷ 0xA9 ∷ 0x14 ∷ payload ++ 0x88 ∷ 0xAC ∷ [],
        rw (base58_script, e) refl,
        p2pkh payload size ∙ b58check-encode value payload 0 e,
      )
  base58_script-back value payload version h size (inr five) =
      let e : b58check_decode sha256 value ≡ ok (5 ∷ payload) =
        h ∙ ap (λ x. ok (x ∷ payload)) five in
      (
        0xA9 ∷ 0x14 ∷ payload ++ 0x87 ∷ [],
        rw (base58_script, e) refl,
        p2sh payload size ∙ b58check-encode value payload 5 e,
      )

  validate-base58 :
      (address v : List ℕ)
      → is_bech32 py (py.strip address) ≡ false
      → validate_mainnet_address py sha256 address ≡ ok v
      → validate_base58 py sha256 (py.strip address) ≡ ok v
  unfolding validate_mainnet_address
  validate-base58 address v legacy h =
      let size = length (py.strip address) in
      elim (Bool-cases (nat_eq size 0 || ltb 100 size)) [
        | inl e ↦ absurd (ground (arith, e))
        | inr e ↦ ground (arith, e, legacy)
      ]

  address_scriptpubkey-base58 :
      (address v : List ℕ)
      → validate_mainnet_address py sha256 address ≡ ok v
      → is_bech32 py v ≡ false
      → address_scriptpubkey py sha256 address ≡ base58_script py sha256 v
  unfolding address_scriptpubkey
  address_scriptpubkey-base58 address v h legacy = rw (address_scriptpubkey, h, legacy) refl

  -- An address that is accepted and does not start with bc1 has a script, and the script has this
  -- address, without the blanks around it.
  pub scriptpubkey_address-address_scriptpubkey :
      (address v : List ℕ)
      → is_bech32 py (py.strip address) ≡ false
      → validate_mainnet_address py sha256 address ≡ ok v
      → (script : List ℕ) × (address_scriptpubkey py sha256 address ≡ ok script)
        × (scriptpubkey_address py sha256 script ≡ py.strip address)
  scriptpubkey_address-address_scriptpubkey address v legacy h =
      let (version, payload, decoded, size, known, same) =
        validate_base58-parts (py.strip address) v (validate-base58 address v legacy h) in
      let (script, made, back) =
        base58_script-back (py.strip address) payload version decoded size known in
      let kept : is_bech32 py v ≡ false = ap (is_bech32 py) (sym same) ∙ legacy in
      (
        script,
        address_scriptpubkey-base58 address v h kept
            ∙ (ap (base58_script py sha256) (sym same) ∙ made),
        back,
      )
