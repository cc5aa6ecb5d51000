-- ===== src/WalletWatch/Transaction/RoundTrip.antt =====
-- A serialized transaction is parsed back.
use mathlib.Core.Path.{subst}
use bitcoin_stack_tracker.Common.{
  ℕ, ◌≤◌, ◌≡◌, refl, sym, ap, ◌∙◌, Bool, true, false, Option, none, some, List, [], ◌∷◌, ◌++◌,
  if◌then◌else◌, ltb, length, All, length-append, arith, Bool-cases, inl, inr,
}
use bitcoin_stack_tracker.WalletWatch.Base58.{drop}
use bitcoin_stack_tracker.WalletWatch.Transaction.{
  reversed, read_varint, TxInput, TxOutput, read_inputs, read_outputs, skip_witnesses, is_segwit,
  is_rbf, finish, parse_outputs, parse_inputs, parse_raw_transaction,
}
use bitcoin_stack_tracker.WalletWatch.Transaction.Format.{
  little, varint, Spent, Tx, input_bytes, inputs_bytes, outputs_bytes, witnesses_bytes, body_bytes,
  serialize, inputs_of, overview, IsInput, AreWitnesses, IsTx,
}
use bitcoin_stack_tracker.WalletWatch.Transaction.Laws.{
  read_varint-varint, read_inputs-inputs_bytes, read_outputs-outputs_bytes,
  skip_witnesses-witnesses_bytes, drop-exactly, length-reversed,
}

finish-some :
    (segwit : Bool) (ins : List TxInput) (outs : List TxOutput) (n : ℕ) (raw rest : List ℕ)
    → (if segwit then skip_witnesses n raw else some raw) ≡ some rest
    → length rest ≡ 4
    → finish segwit ins outs n raw
      ≡ some (record { inputs = ins; outputs = outs; rbf = is_rbf ins })
unfolding finish
finish-some segwit ins outs n raw rest h four =
    let long : ltb (length rest) 4 ≡ false = ground (arith, four) in rw (finish, h, long) refl

parse_outputs-some :
    (segwit : Bool) (ins : List TxInput) (n count : ℕ) (raw after rest : List ℕ)
    (outs : List TxOutput)
    → read_varint raw ≡ some (count, after)
    → count ≤ 100_000
    → read_outputs count after ≡ some (outs, rest)
    → parse_outputs segwit ins n raw ≡ finish segwit ins outs n rest
unfolding parse_outputs
parse_outputs-some segwit ins n count raw after rest outs h few k =
    let allowed : ltb 100_000 count ≡ false = ground arith in rw (parse_outputs, h, allowed, k) refl

parse_inputs-some :
    (segwit : Bool) (count : ℕ) (raw after rest : List ℕ) (ins : List TxInput)
    → read_varint raw ≡ some (count, after)
    → count ≤ 100_000
    → read_inputs count after ≡ some (ins, rest)
    → parse_inputs segwit raw ≡ parse_outputs segwit ins count rest
unfolding parse_inputs
parse_inputs-some segwit count raw after rest ins h few k =
    let allowed : ltb 100_000 count ≡ false = ground arith in rw (parse_inputs, h, allowed, k) refl

parse_inputs-body_bytes :
    (t : Tx) (segwit : Bool) (tail rest : List ℕ)
    → IsTx t
    → (if segwit then skip_witnesses (length t.spent) tail else some tail) ≡ some rest
    → length rest ≡ 4
    → parse_inputs segwit (body_bytes t tail) ≡ some (overview t)
unfolding body_bytes overview
parse_inputs-body_bytes t segwit tail rest (v, l, some_in, ins, outs, spent, outputs, w) h four =
    let n = length t.spent in
    let m = length t.outputs in
    let after = varint m ++ outputs_bytes t.outputs tail in
    parse_inputs-some segwit n (varint n ++ inputs_bytes t.spent after) (inputs_bytes t.spent after)
      after (inputs_of t.spent)
      (read_varint-varint n (inputs_bytes t.spent after) (omega (arith, ins))) ins
      (read_inputs-inputs_bytes t.spent after spent)
    ∙ (parse_outputs-some segwit (inputs_of t.spent) n m after (outputs_bytes t.outputs tail) tail
          t.outputs (read_varint-varint m (outputs_bytes t.outputs tail) (omega (arith, outs))) outs
          (read_outputs-outputs_bytes t.outputs tail outputs)
        ∙ finish-some segwit (inputs_of t.spent) t.outputs n tail rest h four)

-- The first byte of a number other than 0 is not 0.
varint-first : (n : ℕ) (rest : List ℕ) → 1 ≤ n → is_segwit (varint n ++ rest) ≡ false
unfolding varint is_segwit
varint-first n rest h = elim (Bool-cases (ltb n 0xFD)) [
  | inl e ↦ rw e (ground arith)
  | inr e ↦ elim (Bool-cases (ltb n 0x1_0000)) [
    | inl f ↦ rw (e, f) refl
    | inr f ↦ elim (Bool-cases (ltb n 0x1_0000_0000)) [
      | inl g ↦ rw (e, f, g) refl
      | inr g ↦ rw (e, f, g) refl
    ]
  ]
]

parse-legacy :
    (raw body : List ℕ)
    → drop 4 raw ≡ body
    → ltb (length raw) 10 ≡ false
    → is_segwit body ≡ false
    → parse_raw_transaction raw ≡ parse_inputs false body
unfolding parse_raw_transaction
parse-legacy raw body e long legacy = rw (parse_raw_transaction, e, long, legacy) refl

parse-segwit :
    (raw body : List ℕ)
    → drop 4 raw ≡ 0 ∷ 1 ∷ body
    → ltb (length raw) 10 ≡ false
    → parse_raw_transaction raw ≡ parse_inputs true body
unfolding parse_raw_transaction is_segwit drop
parse-segwit raw body e long = rw (parse_raw_transaction, e, long) refl

body_bytes-legacy :
    (t : Tx) (tail : List ℕ) → 1 ≤ length t.spent → is_segwit (body_bytes t tail) ≡ false
unfolding body_bytes
body_bytes-legacy t tail h =
    varint-first (length t.spent)
      (inputs_bytes t.spent (varint (length t.outputs) ++ outputs_bytes t.outputs tail)) h

input_long :
    (s : Spent) (rest : List ℕ) → length s.input.txid ≡ 32 → 32 ≤ length (input_bytes s rest)
unfolding input_bytes
input_long s rest sized =
    let t = reversed s.input.txid [] in
    let more =
      little 4 s.input.vout
      ++ (varint (length s.script) ++ (s.script ++ (little 4 s.input.sequence ++ rest))) in
    omega (arith, length-append t more, length-reversed s.input.txid [], sized)

inputs_long :
    (ss : List Spent) (rest : List ℕ)
    → 1 ≤ length ss
    → All IsInput ss
    → 32 ≤ length (inputs_bytes ss rest)
unfolding inputs_bytes
inputs_long [] rest h a = absurd (omega (arith, h))
inputs_long (s ∷ ss) rest h ((sized, vout, sequence, short), a) =
    input_long s (inputs_bytes ss rest) sized

-- An input takes 32 bytes and more.
body_bytes-long : (t : Tx) (tail : List ℕ) → IsTx t → 32 ≤ length (body_bytes t tail)
unfolding body_bytes
body_bytes-long t tail (v, l, some_in, ins, outs, spent, outputs, wit) =
    let after = varint (length t.outputs) ++ outputs_bytes t.outputs tail in
    omega (
      arith,
      length-append (varint (length t.spent)) (inputs_bytes t.spent after),
      inputs_long t.spent after some_in spent,
    )

serialize-long : (v b : List ℕ) → length v ≡ 4 → 6 ≤ length b → ltb (length (v ++ b)) 10 ≡ false
serialize-long v b four six = ground (arith, length-append v b, four, six)

-- A transaction, with witnesses or without, is read from its serialization, if its fields have
-- their sizes, it has an input, and no more than 100,000 inputs and outputs each.
pub parse_raw_transaction-serialize :
    (t : Tx) → IsTx t → parse_raw_transaction (serialize t) ≡ some (overview t)
unfolding serialize
parse_raw_transaction-serialize t w = go t.witnesses refl w
  where
    go :
        (ws : Option (List (List (List ℕ))))
        → t.witnesses ≡ ws
        → IsTx t
        → parse_raw_transaction (
            t.version ++ elim ws as (λ x. List ℕ) [
              | none ↦ body_bytes t t.locktime
              | some ws ↦ 0 ∷ 1 ∷ body_bytes t (witnesses_bytes ws t.locktime)
            ])
          ≡ some (overview t)
    go none e (v, l, some_in, ins, outs, spent, outputs, wit) =
        let b = body_bytes t t.locktime in
        parse-legacy (t.version ++ b) b (drop-exactly 4 t.version b v)
          (serialize-long t.version b v (omega (arith, body_bytes-long t t.locktime w)))
          (body_bytes-legacy t t.locktime some_in)
        ∙ parse_inputs-body_bytes t false t.locktime t.locktime w refl l
    go (some ws) e (v, l, some_in, ins, outs, spent, outputs, wit) =
        let tail = witnesses_bytes ws t.locktime in
        let b = body_bytes t tail in
        let (many, fine) = subst (AreWitnesses (length t.spent)) e wit in
        parse-segwit (t.version ++ 0 ∷ 1 ∷ b) b (drop-exactly 4 t.version (0 ∷ 1 ∷ b) v)
          (serialize-long t.version (0 ∷ 1 ∷ b) v (omega (arith, body_bytes-long t tail w)))
        ∙ parse_inputs-body_bytes t true tail t.locktime w
            (ap (λ n. skip_witnesses n tail) (sym many)
              ∙ skip_witnesses-witnesses_bytes ws t.locktime fine)
            l
