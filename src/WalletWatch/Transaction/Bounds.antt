-- ===== src/WalletWatch/Transaction/Bounds.antt =====
-- A parsed transaction is no longer than its bytes: a count that the bytes do not bear is refused.
use bitcoin_stack_tracker.Common.{
  ℕ, zero, suc, ◌+◌, ◌*◌, ◌≤◌, ◌≡◌, Bool, true, false, some, List, [], ◌∷◌, ltb, length, arith,
  Bool-cases, Option-cases, inl, inr,
}
use bitcoin_stack_tracker.WalletWatch.Base58.{take, drop}
use bitcoin_stack_tracker.WalletWatch.Transaction.{
  varint_size, read_varint, TxInput, TxOutput, ParsedTx, read_sequence, read_input, read_inputs,
  read_output, read_outputs, reversed, from_little, skip_item, skip_items, skip_witnesses,
  is_segwit, finish, parse_outputs, parse_inputs, parse_raw_transaction,
}

length-drop : (n : ℕ) (xs : List ℕ) → length (drop n xs) ≤ length xs
unfolding drop
length-drop zero xs = omega arith
length-drop (suc n) [] = omega arith
length-drop (suc n) (x ∷ xs) = omega (arith, length-drop n xs)

length-drop-enough : (n : ℕ) (xs : List ℕ) → n ≤ length xs → length (drop n xs) + n ≡ length xs
unfolding drop
length-drop-enough zero xs h = omega arith
length-drop-enough (suc n) [] h = absurd (omega (arith, h))
length-drop-enough (suc n) (x ∷ xs) h = omega (arith, length-drop-enough n xs (omega (arith, h)))

read_varint-shorter :
    (raw rest : List ℕ) (n : ℕ) → read_varint raw ≡ some (n, rest) → length rest + 1 ≤ length raw
unfolding read_varint
read_varint-shorter [] rest n h = absurd (cc)
read_varint-shorter (first ∷ raw) rest n h = elim (Bool-cases (ltb first 0xFD)) [
  | inl e ↦ let same : raw ≡ rest = ground (arith, e) in rw (← same) (omega arith)
  | inr e ↦ elim (Bool-cases (ltb (length raw) (varint_size first))) [
    | inl f ↦ absurd (ground (arith, e, f))
    | inr f ↦
        let same : drop (varint_size first) raw ≡ rest = ground (arith, e, f) in
        rw (← same) (omega (arith, length-drop (varint_size first) raw))
  ]
]

read_sequence-shorter :
    (txid : List ℕ) (vout : ℕ) (raw rest : List ℕ) (i : TxInput)
    → read_sequence txid vout raw ≡ some (i, rest)
    → length rest + 4 ≤ length raw
unfolding read_sequence
read_sequence-shorter txid vout raw rest i h = elim (Bool-cases (ltb (length raw) 4)) [
  | inl e ↦ absurd (ground (arith, e))
  | inr e ↦
      let same : drop 4 raw ≡ rest = ground (arith, e) in
      rw (← same) (omega (arith, length-drop-enough 4 raw (ground (arith, e))))
]

read_input-shorter :
    (raw rest : List ℕ) (i : TxInput)
    → read_input raw ≡ some (i, rest)
    → length rest + 41 ≤ length raw
unfolding read_input
read_input-shorter raw rest i h = elim (Bool-cases (ltb (length raw) 36)) [
  | inl e ↦ absurd (ground (arith, e))
  | inr e ↦ elim (Option-cases (read_varint (drop 36 raw))) [
    | inl f ↦ absurd (ground (arith, e, f))
    | inr ((n, after), f) ↦
        let read : read_sequence (reversed (take 32 raw) []) (from_little (take 4 (drop 32 raw)))
              (drop n after)
            ≡ some (i, rest) =
          ground (arith, e, f) in
        omega (
          arith,
          read_sequence-shorter (reversed (take 32 raw) []) (from_little (take 4 (drop 32 raw)))
              (drop n after) rest i read,
          length-drop n after,
          read_varint-shorter (drop 36 raw) after n f,
          length-drop-enough 36 raw (ground (arith, e)),
        )
  ]
]

read_inputs-shorter :
    (n : ℕ) (raw rest : List ℕ) (is : List TxInput)
    → read_inputs n raw ≡ some (is, rest)
    → length rest + 41 * length is ≤ length raw
unfolding read_inputs
read_inputs-shorter zero raw rest is h =
    let (e, f) : ([] ≡ is) × (raw ≡ rest) = (ground arith, ground arith) in
    rw (← e, ← f) (omega arith)
read_inputs-shorter (suc n) raw rest is h = elim (Option-cases (read_input raw)) [
  | inl e ↦ absurd (ground (arith, e))
  | inr ((i, after), e) ↦ elim (Option-cases (read_inputs n after)) [
    | inl f ↦ absurd (ground (arith, e, f))
    | inr ((js, left), f) ↦
        let same : i ∷ js ≡ is = ground (arith, e, f) in
        let end : left ≡ rest = ground (arith, e, f) in
        rw (← same, ← end)
          (omega (arith, read_input-shorter raw after i e, read_inputs-shorter n after left js f))
  ]
]

read_output-shorter :
    (raw rest : List ℕ) (o : TxOutput)
    → read_output raw ≡ some (o, rest)
    → length rest + 9 ≤ length raw
unfolding read_output
read_output-shorter raw rest o h = elim (Bool-cases (ltb (length raw) 8)) [
  | inl e ↦ absurd (ground (arith, e))
  | inr e ↦ elim (Option-cases (read_varint (drop 8 raw))) [
    | inl f ↦ absurd (ground (arith, e, f))
    | inr ((n, after), f) ↦ elim (Bool-cases (ltb (length after) n)) [
      | inl g ↦ absurd (ground (arith, e, f, g))
      | inr g ↦
          let same : drop n after ≡ rest = ground (arith, e, f, g) in
          rw (← same) (
            omega (
              arith,
              length-drop n after,
              read_varint-shorter (drop 8 raw) after n f,
              length-drop-enough 8 raw (ground (arith, e)),
            ))
    ]
  ]
]

read_outputs-shorter :
    (n : ℕ) (raw rest : List ℕ) (os : List TxOutput)
    → read_outputs n raw ≡ some (os, rest)
    → length rest + 9 * length os ≤ length raw
unfolding read_outputs
read_outputs-shorter zero raw rest os h =
    let (e, f) : ([] ≡ os) × (raw ≡ rest) = (ground arith, ground arith) in
    rw (← e, ← f) (omega arith)
read_outputs-shorter (suc n) raw rest os h = elim (Option-cases (read_output raw)) [
  | inl e ↦ absurd (ground (arith, e))
  | inr ((o, after), e) ↦ elim (Option-cases (read_outputs n after)) [
    | inl f ↦ absurd (ground (arith, e, f))
    | inr ((ps, left), f) ↦
        let same : o ∷ ps ≡ os = ground (arith, e, f) in
        let end : left ≡ rest = ground (arith, e, f) in
        rw (← same, ← end)
          (omega (arith, read_output-shorter raw after o e, read_outputs-shorter n after left ps f))
  ]
]

skip_item-shorter : (raw after : List ℕ) → skip_item raw ≡ some after → length after ≤ length raw
unfolding skip_item
skip_item-shorter raw after h = elim (Option-cases (read_varint raw)) [
  | inl e ↦ absurd (ground (arith, e))
  | inr ((n, rest), e) ↦ elim (Bool-cases (ltb (length rest) n)) [
    | inl f ↦ absurd (ground (arith, e, f))
    | inr f ↦
        let same : drop n rest ≡ after = ground (arith, e, f) in
        rw (← same) (omega (arith, length-drop n rest, read_varint-shorter raw rest n e))
  ]
]

skip_items-shorter :
    (n : ℕ) (raw after : List ℕ) → skip_items n raw ≡ some after → length after ≤ length raw
unfolding skip_items
skip_items-shorter zero raw after h =
    let same : raw ≡ after = ground arith in rw (← same) (omega arith)
skip_items-shorter (suc n) raw after h = elim (Option-cases (skip_item raw)) [
  | inl e ↦ absurd (ground (arith, e))
  | inr (rest, e) ↦
      omega
        (arith, skip_item-shorter raw rest e, skip_items-shorter n rest after (ground (arith, e)))
]

skip_witnesses-shorter :
    (n : ℕ) (raw after : List ℕ) → skip_witnesses n raw ≡ some after → length after ≤ length raw
unfolding skip_witnesses
skip_witnesses-shorter zero raw after h =
    let same : raw ≡ after = ground arith in rw (← same) (omega arith)
skip_witnesses-shorter (suc n) raw after h = elim (Option-cases (read_varint raw)) [
  | inl e ↦ absurd (ground (arith, e))
  | inr ((count, items), e) ↦ elim (Option-cases (skip_items count items)) [
    | inl f ↦ absurd (ground (arith, e, f))
    | inr (rest, f) ↦ omega (
      arith,
      read_varint-shorter raw items count e,
      skip_items-shorter count items rest f,
      skip_witnesses-shorter n rest after (ground (arith, e, f)),
    )
  ]
]

finish-fields :
    (segwit : Bool) (is : List TxInput) (os : List TxOutput) (n : ℕ) (raw : List ℕ) (t : ParsedTx)
    → finish segwit is os n raw ≡ some t
    → (t.inputs ≡ is) × (t.outputs ≡ os) × (4 ≤ length raw)
unfolding finish
finish-fields false is os n raw t h = elim (Bool-cases (ltb (length raw) 4)) [
  | inl e ↦ absurd (ground (arith, e))
  | inr e ↦ (ground (arith, e), ground (arith, e), ground (arith, e))
]
finish-fields true is os n raw t h = elim (Option-cases (skip_witnesses n raw)) [
  | inl e ↦ absurd (ground (arith, e))
  | inr (rest, e) ↦ elim (Bool-cases (ltb (length rest) 4)) [
    | inl f ↦ absurd (ground (arith, e, f))
    | inr f ↦ (
      ground (arith, e, f),
      ground (arith, e, f),
      ground (arith, f, skip_witnesses-shorter n raw rest e),
    )
  ]
]

parse_outputs-fields :
    (segwit : Bool) (is : List TxInput) (n : ℕ) (raw : List ℕ) (t : ParsedTx)
    → parse_outputs segwit is n raw ≡ some t
    → (t.inputs ≡ is) × (9 * length t.outputs + 5 ≤ length raw)
unfolding parse_outputs
parse_outputs-fields segwit is n raw t h = elim (Option-cases (read_varint raw)) [
  | inl e ↦ absurd (ground (arith, e))
  | inr ((count, after), e) ↦ elim (Bool-cases (ltb 100_000 count)) [
    | inl f ↦ absurd (ground (arith, e, f))
    | inr f ↦ elim (Option-cases (read_outputs count after)) [
      | inl g ↦ absurd (ground (arith, e, f, g))
      | inr ((os, rest), g) ↦
          let (same, outs, four) = finish-fields segwit is os n rest t (ground (arith, e, f, g)) in
          (
            same,
            rw outs (
                omega (
                  arith,
                  read_varint-shorter raw after count e,
                  read_outputs-shorter count after rest os g,
                  four,
                )),
          )
    ]
  ]
]

parse_inputs-fields :
    (segwit : Bool) (raw : List ℕ) (t : ParsedTx)
    → parse_inputs segwit raw ≡ some t
    → 41 * length t.inputs + 9 * length t.outputs + 6 ≤ length raw
unfolding parse_inputs
parse_inputs-fields segwit raw t h = elim (Option-cases (read_varint raw)) [
  | inl e ↦ absurd (ground (arith, e))
  | inr ((count, after), e) ↦ elim (Bool-cases (ltb 100_000 count)) [
    | inl f ↦ absurd (ground (arith, e, f))
    | inr f ↦ elim (Option-cases (read_inputs count after)) [
      | inl g ↦ absurd (ground (arith, e, f, g))
      | inr ((is, rest), g) ↦
          let (same, outputs) =
            parse_outputs-fields segwit is count rest t (ground (arith, e, f, g)) in
          rw same (
            omega (
              arith,
              read_varint-shorter raw after count e,
              read_inputs-shorter count after rest is g,
              outputs,
            ))
    ]
  ]
]

-- Every input of a parsed transaction has taken 41 bytes and more, every output 9, and the rest 10:
-- bytes too few for the counts that they claim are refused.
pub parse_raw_transaction-bounded :
    (raw : List ℕ) (t : ParsedTx)
    → parse_raw_transaction raw ≡ some t
    → 41 * length t.inputs + 9 * length t.outputs + 10 ≤ length raw
unfolding parse_raw_transaction
parse_raw_transaction-bounded raw t h = elim (Bool-cases (ltb (length raw) 10)) [
  | inl e ↦ absurd (ground (arith, e))
  | inr e ↦
      let size = length-drop-enough 4 raw (ground (arith, e)) in
      elim (Bool-cases (is_segwit (drop 4 raw))) [
        | inl f ↦ omega (
          arith,
          parse_inputs-fields true (drop 2 (drop 4 raw)) t (ground (arith, e, f)),
          length-drop 2 (drop 4 raw),
          size,
        )
        | inr f ↦
            omega (arith, parse_inputs-fields false (drop 4 raw) t (ground (arith, e, f)), size)
      ]
]
