-- ===== src/WalletWatch/Digits.antt =====
-- Numbers and their digits, the first digit the most significant, as `int.from_bytes` and
-- `int.to_bytes` read and write them to the base 256, and the loops of base 58 to the base 58.
use native.Mathlib.Nat.{
  div-add-mod', mod-lt, div-eq_of_lt, mod-eq_of_lt, mul-add-div_right, mul-add-mod_self_right,
  div-lt_self,
}
use mathlib.Core.List.{append-nil}
use bitcoin_stack_tracker.Common.{
  ℕ, zero, suc, ◌+◌, ◌*◌, ◌/◌, ◌%◌, ◌≤◌, ◌<◌, ◌≡◌, refl, sym, ap, ◌∙◌, List, [], ◌∷◌, ◌++◌, All,
  arith,
}

-- The number, after the digits that made `n`.
unfoldable pub from_digits : ℕ → ℕ → List ℕ → ℕ
from_digits base n [] = n
from_digits base n (d ∷ ds) = from_digits base (n * base + d) ds

-- The digits of the number before `ds`; none for 0. A round for each digit.
unfoldable pub digits_loop : ℕ → ℕ → ℕ → List ℕ → List ℕ
digits_loop base fuel zero ds = ds
digits_loop base zero (suc n) ds = ds
digits_loop base (suc fuel) (suc n) ds = digits_loop base fuel (suc n / base) (suc n % base ∷ ds)

unfoldable pub digits : ℕ → ℕ → List ℕ
unfolding digits_loop
digits base n = digits_loop base n n []

-- How many noughts there are at the start, and what follows them.
unfoldable pub leading : List ℕ → ℕ
leading [] = 0
leading (zero ∷ ds) = suc (leading ds)
leading (suc d ∷ ds) = 0

unfoldable pub stripped : List ℕ → List ℕ
stripped [] = []
stripped (zero ∷ ds) = stripped ds
stripped (suc d ∷ ds) = suc d ∷ ds

unfoldable pub noughts : ℕ → List ℕ → List ℕ
noughts zero ds = ds
noughts (suc n) ds = 0 ∷ noughts n ds

pub noughts-leading : (ds : List ℕ) → noughts (leading ds) (stripped ds) ≡ ds
unfolding noughts leading stripped
noughts-leading [] = refl
noughts-leading (zero ∷ ds) = ap (λ xs. 0 ∷ xs) (noughts-leading ds)
noughts-leading (suc d ∷ ds) = refl

module _ (base : ℕ) (big : 2 ≤ base) where
  div_mod : (n : ℕ) → n / base * base + n % base ≡ n
  div_mod n = div-add-mod' n base

  less_div : (n : ℕ) → suc n / base ≤ n
  less_div n = omega (arith, div-lt_self {n = suc n} {k = base} (omega arith) big)

  mod_below : (n : ℕ) → n % base < base
  mod_below n = mod-lt n (omega (arith, big))

  -- More fuel than the number changes nothing.
  digits_loop-fuel :
      (fuel more n : ℕ) (ds : List ℕ)
      → n ≤ fuel
      → n ≤ more
      → digits_loop base fuel n ds ≡ digits_loop base more n ds
  unfolding digits_loop
  digits_loop-fuel fuel more zero ds h k = refl
  digits_loop-fuel zero more (suc n) ds h k = absurd (omega arith)
  digits_loop-fuel (suc fuel) zero (suc n) ds h k = absurd (omega arith)
  digits_loop-fuel (suc fuel) (suc more) (suc n) ds h k =
      digits_loop-fuel fuel more (suc n / base) (suc n % base ∷ ds) (omega (arith, less_div n))
        (omega (arith, less_div n))

  from_digits-loop :
      (fuel n : ℕ) (ds : List ℕ)
      → n ≤ fuel
      → from_digits base 0 (digits_loop base fuel n ds) ≡ from_digits base n ds
  unfolding digits_loop from_digits
  from_digits-loop fuel zero ds h = refl
  from_digits-loop zero (suc n) ds h = absurd (omega arith)
  from_digits-loop (suc fuel) (suc n) ds h =
      from_digits-loop fuel (suc n / base) (suc n % base ∷ ds) (omega (arith, less_div n))
      ∙ ap (λ m. from_digits base m ds) (div_mod (suc n))

  -- The digits of a number make the number.
  pub from_digits-digits : (n : ℕ) → from_digits base 0 (digits base n) ≡ n
  unfolding digits from_digits
  from_digits-digits n = from_digits-loop n n [] (omega arith)

  All-digits_loop :
      (fuel n : ℕ) (ds : List ℕ)
      → All (λ d. d < base) ds
      → All (λ d. d < base) (digits_loop base fuel n ds)
  unfolding digits_loop
  All-digits_loop fuel zero ds a = a
  All-digits_loop zero (suc n) ds a = a
  All-digits_loop (suc fuel) (suc n) ds a =
      All-digits_loop fuel (suc n / base) (suc n % base ∷ ds) (mod_below (suc n), a)

  pub All-digits : (n : ℕ) → All (λ d. d < base) (digits base n)
  unfolding digits
  All-digits n = All-digits_loop n n [] tt

  quotient : (n d : ℕ) → d < base → (n * base + d) / base ≡ n
  quotient n d h = mul-add-div_right (omega (arith, big)) n d ∙ omega (arith, div-eq_of_lt h)

  remainder : (n d : ℕ) → d < base → (n * base + d) % base ≡ d
  remainder n d h = mul-add-mod_self_right n base d ∙ mod-eq_of_lt h

  -- One digit more is one round more.
  digits_loop-digit :
      (n d : ℕ) (ds : List ℕ)
      → d < base
      → 1 ≤ n
      → digits_loop base (n * base + d) (n * base + d) ds ≡ digits_loop base n n (d ∷ ds)
  unfolding digits_loop
  digits_loop-digit n d ds h pos = go (n * base + d) refl (bound n pos)
    where
      bound : (n : ℕ) → 1 ≤ n → 1 ≤ n * base + d
      bound zero p = absurd (omega arith)
      bound (suc k) p = omega (arith, big)

      go :
          (m : ℕ)
          → n * base + d ≡ m
          → 1 ≤ m
          → digits_loop base m m ds ≡ digits_loop base n n (d ∷ ds)
      go zero e p = absurd (omega arith)
      go (suc m) e p =
          let q : suc m / base ≡ n = ap (λ x. x / base) (sym e) ∙ quotient n d h in
          let r : suc m % base ≡ d = ap (λ x. x % base) (sym e) ∙ remainder n d h in
          ap (λ x. digits_loop base m x (suc m % base ∷ ds)) q
          ∙ (ap (λ x. digits_loop base m n (x ∷ ds)) r
              ∙ digits_loop-fuel m n n (d ∷ ds) (omega (arith, less_div m, q)) (omega arith))

  digits_loop-from_digits :
      (n : ℕ) (ds es : List ℕ)
      → 1 ≤ n
      → All (λ d. d < base) ds
      → digits_loop base (from_digits base n ds) (from_digits base n ds) es
        ≡ digits_loop base n n (ds ++ es)
  unfolding from_digits
  digits_loop-from_digits n [] es p a = refl
  digits_loop-from_digits n (d ∷ ds) es p (h, a) =
      digits_loop-from_digits (n * base + d) ds es (grows n p) a
      ∙ digits_loop-digit n d (ds ++ es) h p
    where
      grows : (n : ℕ) → 1 ≤ n → 1 ≤ n * base + d
      grows zero p = absurd (omega arith)
      grows (suc k) p = omega (arith, big)

  -- The digits of the number that digits make are those digits, without the noughts at the start.
  pub digits-from_digits :
      (ds : List ℕ) → All (λ d. d < base) ds → digits base (from_digits base 0 ds) ≡ stripped ds
  unfolding digits from_digits stripped
  digits-from_digits [] a = refl
  digits-from_digits (zero ∷ ds) (h, a) =
      let same : 0 * base + 0 ≡ 0 = omega arith in rw same (digits-from_digits ds a)
  digits-from_digits (suc d ∷ ds) (h, a) =
      let same : 0 * base + suc d ≡ suc d = omega arith in
      rw same (digits_loop-from_digits (suc d) ds [] (omega arith) a ∙ first d ds h)
    where
      first :
          (d : ℕ) (ds : List ℕ)
          → suc d < base
          → digits_loop base (suc d) (suc d) (ds ++ []) ≡ suc d ∷ ds
      first d ds h =
          ap (λ x. digits_loop base d x (suc d % base ∷ (ds ++ []))) (div-eq_of_lt h)
          ∙ (ap (λ x. x ∷ (ds ++ [])) (mod-eq_of_lt h) ∙ ap (λ x. suc d ∷ x) (append-nil ds))

  pub stripped-digits : (n : ℕ) → stripped (digits base n) ≡ digits base n
  stripped-digits n =
      sym (digits-from_digits (digits base n) (All-digits n))
      ∙ ap (digits base) (from_digits-digits n)

pub leading-stripped : (ds : List ℕ) → leading (stripped ds) ≡ 0
unfolding leading stripped
leading-stripped [] = refl
leading-stripped (zero ∷ ds) = leading-stripped ds
leading-stripped (suc d ∷ ds) = refl

pub leading-noughts : (n : ℕ) (ds : List ℕ) → leading ds ≡ 0 → leading (noughts n ds) ≡ n
unfolding leading noughts
leading-noughts zero ds h = h
leading-noughts (suc n) ds h = ap suc (leading-noughts n ds h)

pub from_digits-noughts :
    (base n : ℕ) (ds : List ℕ) → from_digits base 0 (noughts n ds) ≡ from_digits base 0 ds
unfolding from_digits noughts
from_digits-noughts base zero ds = refl
from_digits-noughts base (suc n) ds =
    ap (λ x. from_digits base x (noughts n ds)) (omega arith) ∙ from_digits-noughts base n ds
