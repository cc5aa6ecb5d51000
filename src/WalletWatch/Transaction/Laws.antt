-- ===== src/WalletWatch/Transaction/Laws.antt =====
-- The parser reads a serialized transaction.
use native.Mathlib.Nat.{div-add-mod'}
use mathlib.Core.List.{append-nil}
use bitcoin_stack_tracker.Common.{
  ℕ, zero, suc, ◌+◌, ◌/◌, ◌^◌, ◌<◌, ◌≡◌, refl, sym, ap, ◌∙◌, true, false, some, List, [], ◌∷◌, ◌++◌,
  ltb, length, All, length-append, arith, Bool-cases, inl, inr,
}
use bitcoin_stack_tracker.WalletWatch.Base58.{take, drop}
use bitcoin_stack_tracker.WalletWatch.Transaction.{
  from_little, reversed, varint_size, read_varint, TxInput, TxOutput, read_sequence, read_input,
  read_inputs, read_output, read_outputs, skip_item, skip_items, skip_witnesses,
}
use bitcoin_stack_tracker.WalletWatch.Transaction.Format.{
  little, varint, Spent, input_bytes, inputs_bytes, output_bytes, outputs_bytes, items_bytes,
  witnesses_bytes, inputs_of, IsShort, IsInput, IsOutput, IsWitness,
}

take-append : (xs ys : List ℕ) → take (length xs) (xs ++ ys) ≡ xs
unfolding take
take-append [] ys = refl
take-append (x ∷ xs) ys = ap (λ zs. x ∷ zs) (take-append xs ys)

drop-append : (xs ys : List ℕ) → drop (length xs) (xs ++ ys) ≡ ys
unfolding drop
drop-append [] ys = refl
drop-append (x ∷ xs) ys = drop-append xs ys

-- A number takes k bytes at most.
Fits : ℕ → ℕ → Type 0
Fits zero n = n ≡ 0
Fits (suc k) n = Fits k (n / 256)

from_little-little : (k n : ℕ) → Fits k n → from_little (little k n) ≡ n
unfolding Fits from_little little
from_little-little zero n h = sym h
from_little-little (suc k) n h =
    let rest = from_little-little k (n / 256) h in omega (arith, rest, div-add-mod' n 256)

Fits-2 : (n : ℕ) → n < 0x1_0000 → Fits 2 n
unfolding Fits
Fits-2 n h = omega arith

Fits-4 : (n : ℕ) → n < 0x1_0000_0000 → Fits 4 n
unfolding Fits
Fits-4 n h = omega arith

Fits-8 : (n : ℕ) → n < 2 ^ 64 → Fits 8 n
unfolding Fits
Fits-8 n h = omega arith

length-little : (k n : ℕ) → length (little k n) ≡ k
unfolding little
length-little zero n = refl
length-little (suc k) n = ap suc (length-little k (n / 256))

-- The bytes of a number, before others.
little-taken : (k n : ℕ) (rest : List ℕ) → Fits k n → from_little (take k (little k n ++ rest)) ≡ n
little-taken k n rest h =
    ap (λ m. from_little (take m (little k n ++ rest))) (sym (length-little k n))
    ∙ (ap from_little (take-append (little k n) rest) ∙ from_little-little k n h)

little-dropped : (k n : ℕ) (rest : List ℕ) → drop k (little k n ++ rest) ≡ rest
little-dropped k n rest =
    ap (λ m. drop m (little k n ++ rest)) (sym (length-little k n)) ∙ drop-append (little k n) rest

long_enough : (k n : ℕ) (rest : List ℕ) → ltb (length (little k n ++ rest)) k ≡ false
long_enough k n rest = ground (arith, length-append (little k n) rest, length-little k n)

-- A number after its first byte.
read_varint-long :
    (first n : ℕ) (rest : List ℕ)
    → ltb first 0xFD ≡ false
    → Fits (varint_size first) n
    → read_varint (first ∷ (little (varint_size first) n ++ rest)) ≡ some (n, rest)
unfolding read_varint
read_varint-long first n rest big fits =
    let k = varint_size first in
    let long = long_enough k n rest in
    let read = little-taken k n rest fits in
    let left = little-dropped k n rest in rw (big, long, read, left) refl

read_varint-short :
    (n : ℕ) (rest : List ℕ) → ltb n 0xFD ≡ true → read_varint (n ∷ rest) ≡ some (n, rest)
unfolding read_varint
read_varint-short n rest e = rw e refl

pub read_varint-varint :
    (n : ℕ) (rest : List ℕ) → n < 2 ^ 64 → read_varint (varint n ++ rest) ≡ some (n, rest)
unfolding varint varint_size
read_varint-varint n rest h = elim (Bool-cases (ltb n 0xFD)) [
  | inl e ↦ rw e (read_varint-short n rest e)
  | inr e ↦ elim (Bool-cases (ltb n 0x1_0000)) [
    | inl f ↦ rw (e, f) (read_varint-long 0xFD n rest refl (Fits-2 n (ground (arith, f))))
    | inr f ↦ elim (Bool-cases (ltb n 0x1_0000_0000)) [
      | inl g ↦ rw (e, f, g) (read_varint-long 0xFE n rest refl (Fits-4 n (ground (arith, g))))
      | inr g ↦ rw (e, f, g) (read_varint-long 0xFF n rest refl (Fits-8 n h))
    ]
  ]
]

pub take-exactly : (k : ℕ) (xs ys : List ℕ) → length xs ≡ k → take k (xs ++ ys) ≡ xs
take-exactly k xs ys h = ap (λ m. take m (xs ++ ys)) (sym h) ∙ take-append xs ys

pub drop-exactly : (k : ℕ) (xs ys : List ℕ) → length xs ≡ k → drop k (xs ++ ys) ≡ ys
drop-exactly k xs ys h = ap (λ m. drop m (xs ++ ys)) (sym h) ∙ drop-append xs ys

drop-past : (k m : ℕ) (xs ys : List ℕ) → length xs ≡ k → drop (m + k) (xs ++ ys) ≡ drop m ys
unfolding drop
drop-past zero m [] ys h = ap (λ n. drop n ys) (omega arith)
drop-past (suc k) m (x ∷ xs) ys h =
    let e : m + suc k ≡ suc (m + k) = omega arith in
    ap (λ n. drop n (x ∷ xs ++ ys)) e ∙ drop-past k m xs ys (omega (arith, h))
drop-past zero m (x ∷ xs) ys h = absurd (omega (arith, h))
drop-past (suc k) m [] ys h = absurd (omega (arith, h))

reversed-reversed : (xs ys zs : List ℕ) → reversed (reversed xs ys) zs ≡ reversed ys (xs ++ zs)
unfolding reversed
reversed-reversed [] ys zs = refl
reversed-reversed (x ∷ xs) ys zs = reversed-reversed xs (x ∷ ys) zs

pub length-reversed : (xs ys : List ℕ) → length (reversed xs ys) ≡ length xs + length ys
unfolding reversed
length-reversed [] ys = omega arith
length-reversed (x ∷ xs) ys = omega (arith, length-reversed xs (x ∷ ys))

read_sequence-little :
    (txid : List ℕ) (vout q : ℕ) (rest : List ℕ)
    → q < 2 ^ 32
    → read_sequence txid vout (little 4 q ++ rest)
      ≡ some (record { txid = txid; vout = vout; sequence = q }, rest)
unfolding read_sequence
read_sequence-little txid vout q rest h =
    rw (long_enough 4 q rest, little-taken 4 q rest (Fits-4 q h), little-dropped 4 q rest) refl

read_input-parts :
    (raw after : List ℕ) (n : ℕ)
    → ltb (length raw) 36 ≡ false
    → read_varint (drop 36 raw) ≡ some (n, after)
    → read_input raw
      ≡ read_sequence
          (reversed (take 32 raw) [])
          (from_little (take 4 (drop 32 raw)))
          (drop n after)
unfolding read_input
read_input-parts raw after n long e = rw (long, e) refl

read_input-input_bytes :
    (s : Spent) (rest : List ℕ) → IsInput s → read_input (input_bytes s rest) ≡ some (s.input, rest)
unfolding input_bytes
read_input-input_bytes s rest (sized, vout, sequence, short) =
    let t = reversed s.input.txid [] in
    let c = little 4 s.input.sequence ++ rest in
    let b = varint (length s.script) ++ (s.script ++ c) in
    let a = little 4 s.input.vout ++ b in
    let size : length t ≡ 32 = omega (arith, length-reversed s.input.txid [], sized) in
    let long : ltb (length (t ++ a)) 36 ≡ false = ground (
      arith,
      length-append t a,
      size,
      length-append (little 4 s.input.vout) b,
      length-little 4 s.input.vout,
    ) in
    let past : drop 36 (t ++ a) ≡ b = drop-past 32 4 t a size ∙ little-dropped 4 s.input.vout b in
    let read : read_varint (drop 36 (t ++ a)) ≡ some (length s.script, s.script ++ c) =
      ap read_varint past ∙ read_varint-varint (length s.script) (s.script ++ c) short in
    let txid : reversed (take 32 (t ++ a)) [] ≡ s.input.txid =
      ap (λ x. reversed x []) (take-exactly 32 t a size)
      ∙ (reversed-reversed s.input.txid [] [] ∙ append-nil s.input.txid) in
    let out : from_little (take 4 (drop 32 (t ++ a))) ≡ s.input.vout =
      ap (λ x. from_little (take 4 x)) (drop-exactly 32 t a size)
      ∙ little-taken 4 s.input.vout b (Fits-4 s.input.vout vout) in
    read_input-parts (t ++ a) (s.script ++ c) (length s.script) long read
    ∙ (ap
          (λ x.
            read_sequence x (from_little (take 4 (drop 32 (t ++ a))))
              (drop (length s.script) (s.script ++ c)))
          txid
        ∙ (ap (λ x. read_sequence s.input.txid x (drop (length s.script) (s.script ++ c))) out
            ∙ (ap (read_sequence s.input.txid s.input.vout) (drop-append s.script c)
                ∙ read_sequence-little s.input.txid s.input.vout s.input.sequence rest sequence)))

read_inputs-cons :
    (n : ℕ) (raw after rest : List ℕ) (i : TxInput) (is : List TxInput)
    → read_input raw ≡ some (i, after)
    → read_inputs n after ≡ some (is, rest)
    → read_inputs (suc n) raw ≡ some (i ∷ is, rest)
unfolding read_inputs
read_inputs-cons n raw after rest i is h k = rw (read_inputs, h, k) refl

pub read_inputs-inputs_bytes :
    (ss : List Spent) (rest : List ℕ)
    → All IsInput ss
    → read_inputs (length ss) (inputs_bytes ss rest) ≡ some (inputs_of ss, rest)
unfolding inputs_bytes read_inputs
read_inputs-inputs_bytes [] rest a = refl
read_inputs-inputs_bytes (s ∷ ss) rest (h, a) =
    let more = inputs_bytes ss rest in
    read_inputs-cons (length ss) (input_bytes s more) more rest s.input (inputs_of ss)
      (read_input-input_bytes s more h) (read_inputs-inputs_bytes ss rest a)

read_output-output_bytes :
    (o : TxOutput) (rest : List ℕ) → IsOutput o → read_output (output_bytes o rest) ≡ some (o, rest)
unfolding read_output output_bytes
read_output-output_bytes o rest (value, short) =
    let b = varint (length o.script) ++ (o.script ++ rest) in
    let a = little 8 o.value_sats ++ b in
    let read : read_varint (drop 8 a) ≡ some (length o.script, o.script ++ rest) =
      ap read_varint (little-dropped 8 o.value_sats b)
      ∙ read_varint-varint (length o.script) (o.script ++ rest) short in
    let fits : ltb (length (o.script ++ rest)) (length o.script) ≡ false =
      ground (arith, length-append o.script rest) in
    let amount = little-taken 8 o.value_sats b (Fits-8 o.value_sats value) in
    rw
      (
        long_enough 8 o.value_sats b,
        read,
        fits,
        amount,
        take-append o.script rest,
        drop-append o.script rest,
      )
      refl

read_outputs-cons :
    (n : ℕ) (raw after rest : List ℕ) (o : TxOutput) (os : List TxOutput)
    → read_output raw ≡ some (o, after)
    → read_outputs n after ≡ some (os, rest)
    → read_outputs (suc n) raw ≡ some (o ∷ os, rest)
unfolding read_outputs
read_outputs-cons n raw after rest o os h k = rw (read_outputs, h, k) refl

pub read_outputs-outputs_bytes :
    (os : List TxOutput) (rest : List ℕ)
    → All IsOutput os
    → read_outputs (length os) (outputs_bytes os rest) ≡ some (os, rest)
unfolding read_outputs outputs_bytes
read_outputs-outputs_bytes [] rest a = refl
read_outputs-outputs_bytes (o ∷ os) rest (h, a) =
    let more = outputs_bytes os rest in
    read_outputs-cons (length os) (output_bytes o more) more rest o os
      (read_output-output_bytes o more h) (read_outputs-outputs_bytes os rest a)

skip_items-cons :
    (n len : ℕ) (raw after : List ℕ)
    → read_varint raw ≡ some (len, after)
    → ltb (length after) len ≡ false
    → skip_items (suc n) raw ≡ skip_items n (drop len after)
unfolding skip_items skip_item
skip_items-cons n len raw after h fits = rw (skip_items, skip_item, h, fits) refl

skip_items-items_bytes :
    (items : List (List ℕ)) (rest : List ℕ)
    → All IsShort items
    → skip_items (length items) (items_bytes items rest) ≡ some rest
unfolding skip_items items_bytes
skip_items-items_bytes [] rest a = refl
skip_items-items_bytes (item ∷ items) rest (h, a) =
    let more = items_bytes items rest in
    let fits : ltb (length (item ++ more)) (length item) ≡ false =
      ground (arith, length-append item more) in
    skip_items-cons (length items) (length item) (varint (length item) ++ (item ++ more))
      (item ++ more) (read_varint-varint (length item) (item ++ more) h) fits
    ∙ (ap (skip_items (length items)) (drop-append item more) ∙ skip_items-items_bytes items rest a)

skip_witnesses-cons :
    (n count : ℕ) (raw after rest : List ℕ)
    → read_varint raw ≡ some (count, after)
    → skip_items count after ≡ some rest
    → skip_witnesses (suc n) raw ≡ skip_witnesses n rest
unfolding skip_witnesses
skip_witnesses-cons n count raw after rest h k = rw (skip_witnesses, h, k) refl

pub skip_witnesses-witnesses_bytes :
    (ws : List (List (List ℕ))) (rest : List ℕ)
    → All IsWitness ws
    → skip_witnesses (length ws) (witnesses_bytes ws rest) ≡ some rest
unfolding skip_witnesses witnesses_bytes
skip_witnesses-witnesses_bytes [] rest a = refl
skip_witnesses-witnesses_bytes (items ∷ ws) rest ((count, short), a) =
    let more = witnesses_bytes ws rest in
    skip_witnesses-cons (length ws) (length items) (varint (length items) ++ items_bytes items more)
      (items_bytes items more) more
      (read_varint-varint (length items) (items_bytes items more) count)
      (skip_items-items_bytes items more short)
    ∙ skip_witnesses-witnesses_bytes ws rest a
