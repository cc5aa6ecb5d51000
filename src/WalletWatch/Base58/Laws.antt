-- ===== src/WalletWatch/Base58/Laws.antt =====
-- Base 58 is read back as it was written, and written as it was read.
use bitcoin_stack_tracker.Common.{
  ℕ, zero, suc, ◌+◌, ◌*◌, ◌/◌, ◌%◌, ◌≤◌, ◌<◌, ◌≡◌, refl, sym, ap, ◌∙◌, Bool, true, false, Option,
  none, some, List, [], ◌∷◌, if◌then◌else◌, nat_eq, nat_eq_iff, get_elem?, or_else, length, not,
  ◌&&◌, All, arith, inl, inr, Bool-cases, Option-cases,
}
use bitcoin_stack_tracker.Security.State.{Result, ok, error, value_error}
use bitcoin_stack_tracker.WalletWatch.Digits.{
  from_digits, digits, digits_loop, leading, stripped, noughts, from_digits-digits, All-digits,
  digits-from_digits, stripped-digits, noughts-leading, leading-stripped, leading-noughts,
  from_digits-noughts,
}
use bitcoin_stack_tracker.WalletWatch.Base58.{
  b58, b58_char, index_in, b58_map, leading_ones, ones, b58_number, b58decode, b58_chars, b58encode,
}

abbrev all_below : (ℕ → Bool) → ℕ → Bool
all_below p zero = true
all_below p (suc n) = p n && all_below p n

all_below-at : (p : ℕ → Bool) (n d : ℕ) → all_below p n ≡ true → d < n → p d ≡ true
all_below-at p zero d h l = absurd (omega arith)
all_below-at p (suc n) d h l = elim (Bool-cases (nat_eq d n)) [
  | inl e ↦ rw ((nat_eq_iff d n).0 e) (ground arith)
  | inr e ↦ all_below-at p n d (ground arith) (ground (arith, e))
]

is_some : ℕ → Option ℕ → Bool
is_some d none = false
is_some d (some e) = nat_eq e d

is_some_lem : (d : ℕ) (found : Option ℕ) → is_some d found ≡ true → found ≡ some d
unfolding is_some
is_some_lem d none h = absurd (cc)
is_some_lem d (some e) h = ap some ((nat_eq_iff e d).0 h)

-- Whether a digit is read back from its character.
reads_back : ℕ → Bool
unfolding is_some b58_map b58_char
reads_back d = is_some d (b58_map (b58_char d))

-- Whether it has the character 1 if it is 0 alone.
is_one : ℕ → Bool
unfolding b58_char
is_one d = if nat_eq (b58_char d) b'1' then nat_eq d 0 else not (nat_eq d 0)

reads_back-all : all_below reads_back 58 ≡ true
unfolding reads_back
reads_back-all = refl

is_one-all : all_below is_one 58 ≡ true
unfolding is_one
is_one-all = refl

b58_map-b58_char : (d : ℕ) → d < 58 → b58_map (b58_char d) ≡ some d
unfolding reads_back
b58_map-b58_char d h =
    is_some_lem d (b58_map (b58_char d)) (all_below-at reads_back 58 d reads_back-all h)

same_test : (a b : Bool) → (if a then b else not b) ≡ true → a ≡ b
same_test true true h = refl
same_test true false h = absurd (cc)
same_test false true h = absurd (cc)
same_test false false h = refl

b58_char-one : (d : ℕ) → d < 58 → nat_eq (b58_char d) b'1' ≡ nat_eq d 0
unfolding is_one
b58_char-one d h =
    same_test (nat_eq (b58_char d) b'1') (nat_eq d 0) (all_below-at is_one 58 d is_one-all h)

index_in-get :
    (c : ℕ) (xs : List ℕ) (i : ℕ)
    → index_in c xs ≡ some i
    → (get_elem? xs i ≡ some c) × (i < length xs)
unfolding index_in
index_in-get c [] i h = absurd (cc)
index_in-get c (x ∷ xs) i h = elim (Bool-cases (nat_eq x c)) [
  | inl same ↦
      let e : i ≡ 0 = ground (arith, same) in rw e (ap some ((nat_eq_iff x c).0 same), omega arith)
  | inr differs ↦ elim (Option-cases (index_in c xs)) [
    | inl e ↦ absurd (ground (arith, differs, e))
    | inr (j, e) ↦
        let s : i ≡ suc j = ground (arith, differs, e) in
        let (g, l) = index_in-get c xs j e in rw s (g, omega (arith, l))
  ]
]

-- A character of the map is that of its digit.
b58_char-b58_map : (c d : ℕ) → b58_map c ≡ some d → (b58_char d ≡ c) × (d < 58)
unfolding b58_map b58_char
b58_char-b58_map c d h = let (g, l) = index_in-get c b58 d h in (ap (λ o. or_else o 0) g, l)

-- The characters of the digits.
abbrev chars_of : List ℕ → List ℕ
chars_of [] = []
chars_of (d ∷ ds) = b58_char d ∷ chars_of ds

b58_chars-digits :
    (fuel n : ℕ) (ds : List ℕ)
    → b58_chars fuel n (chars_of ds) ≡ chars_of (digits_loop 58 fuel n ds)
unfolding b58_chars digits_loop
b58_chars-digits fuel zero ds = refl
b58_chars-digits zero (suc n) ds = refl
b58_chars-digits (suc fuel) (suc n) ds = b58_chars-digits fuel (suc n / 58) (suc n % 58 ∷ ds)

b58_number-cons :
    (n c d : ℕ) (cs : List ℕ)
    → b58_map c ≡ some d
    → b58_number n (c ∷ cs) ≡ b58_number (n * 58 + d) cs
unfolding b58_number
b58_number-cons n c d cs h =
    ap (λ o. elim o as (λ x. Option ℕ) [ none ↦ none | some e ↦ b58_number (n * 58 + e) cs ]) h

b58_number-chars_of :
    (n : ℕ) (ds : List ℕ)
    → All (λ d. d < 58) ds
    → b58_number n (chars_of ds) ≡ some (from_digits 58 n ds)
unfolding b58_number from_digits
b58_number-chars_of n [] a = refl
b58_number-chars_of n (d ∷ ds) (h, a) =
    b58_number-cons n (b58_char d) d (chars_of ds) (b58_map-b58_char d h)
    ∙ b58_number-chars_of (n * 58 + d) ds a

leading_ones-chars_of :
    (ds : List ℕ) → All (λ d. d < 58) ds → leading_ones (chars_of ds) ≡ leading ds
unfolding leading_ones leading
leading_ones-chars_of [] a = refl
leading_ones-chars_of (zero ∷ ds) (h, a) =
    rw (b58_char-one 0 h) (ap suc (leading_ones-chars_of ds a))
leading_ones-chars_of (suc d ∷ ds) (h, a) = ground (arith, b58_char-one (suc d) h)

chars_of-noughts : (n : ℕ) (ds : List ℕ) → chars_of (noughts n ds) ≡ ones n (chars_of ds)
unfolding noughts ones b58_char
chars_of-noughts zero ds = refl
chars_of-noughts (suc n) ds = ap (λ cs. b'1' ∷ cs) (chars_of-noughts n ds)

leading_ones-ones : (n : ℕ) (cs : List ℕ) → leading_ones cs ≡ 0 → leading_ones (ones n cs) ≡ n
unfolding leading_ones ones
leading_ones-ones zero cs h = h
leading_ones-ones (suc n) cs h = ap suc (leading_ones-ones n cs h)

b58_number-ones : (n : ℕ) (cs : List ℕ) → b58_number 0 (ones n cs) ≡ b58_number 0 cs
unfolding ones b58_char
b58_number-ones zero cs = refl
b58_number-ones (suc n) cs =
    b58_number-cons 0 b'1' 0 (ones n cs) (b58_map-b58_char 0 (omega arith)) ∙ b58_number-ones n cs

none-some : (n : ℕ) → (none ≡ some n) → ⊥
none-some n h = cc

-- What is read are the characters of digits, and the number is theirs.
b58_number-digits :
    (n : ℕ) (value : List ℕ) (number : ℕ)
    → b58_number n value ≡ some number
    → (ds : List ℕ) × (chars_of ds ≡ value) × All (λ d. d < 58) ds × (from_digits 58 n ds ≡ number)
unfolding b58_number from_digits
b58_number-digits n [] number h = ([], refl, tt, cc)
b58_number-digits n (c ∷ cs) number h = elim (Option-cases (b58_map c)) [
  | inl e ↦ absurd (
      none-some number (
        sym (
          ap (λ o. elim o as (λ x. Option ℕ) [ none ↦ none | some d ↦ b58_number (n * 58 + d) cs ])
            e)
        ∙ h))
  | inr (d, e) ↦
      let (same, below) = b58_char-b58_map c d e in
      let (ds, ih, a, f) =
        b58_number-digits (n * 58 + d) cs number (sym (b58_number-cons n c d cs e) ∙ h) in
      (d ∷ ds, ap (λ x. x ∷ chars_of ds) same ∙ ap (λ xs. c ∷ xs) ih, (below, a), f)
]

base_58 : 2 ≤ 58
base_58 = omega arith

base_256 : 2 ≤ 256
base_256 = omega arith

leading-digits : (base n : ℕ) → 2 ≤ base → leading (digits base n) ≡ 0
leading-digits base n big =
    ap leading (sym (stripped-digits base big n)) ∙ leading-stripped (digits base n)

b58decode-number :
    (value : List ℕ) (number : ℕ)
    → b58_number 0 value ≡ some number
    → b58decode value ≡ ok (noughts (leading_ones value) (digits 256 number))
unfolding b58decode
b58decode-number value number h =
    ap
      (λ o. elim o as (λ x. Result (List ℕ)) [
        | none ↦ error value_error
        | some n ↦ ok (noughts (leading_ones value) (digits 256 n))
      ])
      h

-- Any bytes are read back from their base 58.
pub b58decode-b58encode :
    (data_bytes : List ℕ)
    → All (λ b. b < 256) data_bytes
    → b58decode (b58encode data_bytes) ≡ ok data_bytes
unfolding b58decode b58encode digits
b58decode-b58encode data_bytes a =
    let n = from_digits 256 0 data_bytes in
    let ds = digits_loop 58 n n [] in
    let below = All-digits 58 base_58 n in
    let chars : b58_chars n n [] ≡ chars_of ds = b58_chars-digits n n [] in
    let number : b58_number 0 (ones (leading data_bytes) (chars_of ds)) ≡ some n =
      b58_number-ones (leading data_bytes) (chars_of ds)
      ∙ (b58_number-chars_of 0 ds below ∙ ap some (from_digits-digits 58 base_58 n)) in
    let first : leading_ones (ones (leading data_bytes) (chars_of ds)) ≡ leading data_bytes =
      leading_ones-ones (leading data_bytes) (chars_of ds)
        (leading_ones-chars_of ds below ∙ leading-digits 58 n base_58) in
    ap (λ cs. b58decode (ones (leading data_bytes) cs)) chars
    ∙ (b58decode-number (ones (leading data_bytes) (chars_of ds)) n number
        ∙ ap ok (
            ap (λ k. noughts k (digits 256 n)) first
            ∙ (ap (noughts (leading data_bytes)) (digits-from_digits 256 base_256 data_bytes a)
                ∙ noughts-leading data_bytes)))

ok_same : {x y : List ℕ} → ok x ≡ ok y → x ≡ y
ok_same h = cc

refused : (value raw : List ℕ) → b58_number 0 value ≡ none → b58decode value ≡ ok raw → ⊥
unfolding b58decode
refused value raw e h = ground (arith, e, h)

-- A text that is read is written again from the bytes that it gives.
pub b58encode-b58decode : (value raw : List ℕ) → b58decode value ≡ ok raw → b58encode raw ≡ value
unfolding b58encode digits
b58encode-b58decode value raw h = elim (Option-cases (b58_number 0 value)) [
  | inl e ↦ absurd (refused value raw e h)
  | inr (n, e) ↦
      let (ds, same, below, number) = b58_number-digits 0 value n e in
      let bytes : noughts (leading_ones value) (digits 256 n) ≡ raw = decoded value raw n e h in
      let pad : leading raw ≡ leading ds =
        ap leading (sym bytes)
        ∙ (leading-noughts (leading_ones value) (digits 256 n) (leading-digits 256 n base_256)
            ∙ (ap leading_ones (sym same) ∙ leading_ones-chars_of ds below)) in
      let total : from_digits 256 0 raw ≡ n =
        ap (from_digits 256 0) (sym bytes)
        ∙ (from_digits-noughts 256 (leading_ones value) (digits 256 n)
            ∙ from_digits-digits 256 base_256 n) in
      let chars : b58_chars n n [] ≡ chars_of (stripped ds) =
        b58_chars-digits n n []
        ∙ ap chars_of (ap (digits 58) (sym number) ∙ digits-from_digits 58 base_58 ds below) in
      ap (λ k. ones k (b58_chars (from_digits 256 0 raw) (from_digits 256 0 raw) [])) pad
      ∙ (ap (λ m. ones (leading ds) (b58_chars m m [])) total
          ∙ (ap (ones (leading ds)) chars
              ∙ (sym (chars_of-noughts (leading ds) (stripped ds))
                  ∙ (ap chars_of (noughts-leading ds) ∙ same))))
]
  where
    decoded :
        (value raw : List ℕ) (n : ℕ)
        → b58_number 0 value ≡ some n
        → b58decode value ≡ ok raw
        → noughts (leading_ones value) (digits 256 n) ≡ raw
    decoded value raw n e h = ok_same (sym (b58decode-number value n e) ∙ h)
