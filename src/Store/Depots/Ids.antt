-- ===== src/Store/Depots/Ids.antt =====
-- The search for a free depot id ends, and finds one.
use bitcoin_stack_tracker.Common.{
  ℕ, zero, suc, ◌+◌, ◌≤◌, ◌≡◌, ◌≢◌, refl, ◌∙◌, Bool, true, false, Option, none, some, String, List,
  [], ◌∷◌, length, not, ◌==◌, texts, inl, inr, Bool-cases, arith, eq_iff, nat_eq, keep,
}
use bitcoin_stack_tracker.Common.Set.{is_in, discard, is_in-keep}
use bitcoin_stack_tracker.Store.Depots.{free_loop, depot_candidate, free_depot_id}

length-keep : (p : String → Bool) (xs : List String) → length (keep p xs) ≤ length xs
length-keep p [] = omega arith
length-keep p (x ∷ xs) = ground (arith, length-keep p xs)

-- To discard a member makes a list shorter.
length-discard :
    (x : String) (xs : List String) → is_in x xs ≡ true → length (discard x xs) + 1 ≤ length xs
length-discard x [] h = absurd (cc)
length-discard x (y ∷ xs) h =
    ground (arith, eq_iff y x, length-keep (λ z. not (z == x)) xs, length-discard x xs)

module _ (candidate : ℕ → String) (distinct : (i j : ℕ) → candidate i ≡ candidate j → i ≡ j) where
  -- A member that is none of the later candidates does not matter.
  free_loop-discard :
      (x : String) (xs : List String) (fuel n : ℕ)
      → ((j : ℕ) → n ≤ j → (candidate j == x) ≡ false)
      → free_loop candidate (discard x xs) fuel n ≡ free_loop candidate xs fuel n
  unfolding free_loop
  free_loop-discard x xs zero n h = refl
  free_loop-discard x xs (suc fuel) n h = ground (
    arith,
    is_in-keep (λ z. not (z == x)) (candidate n) xs,
    h n (omega arith),
    free_loop-discard x xs fuel (n + 1) (λ j l. h j (omega arith)),
  )

  later_differs : (n j : ℕ) → n + 1 ≤ j → (candidate j == candidate n) ≡ false
  later_differs n j h = elim (Bool-cases (candidate j == candidate n)) [
    | inr e ↦ e
    | inl e ↦ absurd (omega (arith, distinct j n ((eq_iff (candidate j) (candidate n)).0 e)))
  ]

  -- If no candidate is free, there are as many members as candidates tried.
  free_loop-none :
      (fuel n : ℕ) (xs : List String) → free_loop candidate xs fuel n ≡ none → fuel ≤ length xs
  unfolding free_loop
  free_loop-none zero n xs h = omega arith
  free_loop-none (suc fuel) n xs h = elim (Bool-cases (is_in (candidate n) xs)) [
    | inr free ↦ absurd (ground (arith, free))
    | inl taken ↦
        let later : free_loop candidate xs fuel (n + 1) ≡ none = ground (arith, taken) in
        let rest =
          free_loop-none fuel (n + 1) (discard (candidate n) xs)
            (free_loop-discard (candidate n) xs fuel (n + 1) (later_differs n) ∙ later) in
        omega (arith, rest, length-discard (candidate n) xs taken)
  ]

  free_loop-is_in :
      (fuel n : ℕ) (xs : List String) (id : String)
      → free_loop candidate xs fuel n ≡ some id
      → is_in id xs ≡ false
  unfolding free_loop
  free_loop-is_in zero n xs id h = absurd (cc)
  free_loop-is_in (suc fuel) n xs id h = elim (Bool-cases (is_in (candidate n) xs)) [
    | inr free ↦ let e : candidate n ≡ id = ground (arith, free) in rw (← e) free
    | inl taken ↦ free_loop-is_in fuel (n + 1) xs id (ground (arith, taken))
  ]

-- The numbered ids differ from each other and from the base.
abbrev pub NumbersApart : (String → ℕ → String) → Type 0
NumbersApart numbered =
    ((base : String) (i j : ℕ) → numbered base i ≡ numbered base j → i ≡ j)
    × ((base : String) (i : ℕ) → numbered base i ≢ base)

depot_candidate-distinct :
    (numbered : String → ℕ → String) (base : String)
    → NumbersApart numbered
    → (i j : ℕ) → depot_candidate numbered base i ≡ depot_candidate numbered base j
    → i ≡ j
unfolding depot_candidate
depot_candidate-distinct numbered base (apart, other) i j e = elim (Bool-cases (nat_eq i 0)) [
  | inl zero_i ↦ elim (Bool-cases (nat_eq j 0)) [
    | inl zero_j ↦ ground arith
    | inr more_j ↦ absurd (other base (j + 1) (ground (arith, zero_i, more_j, e)))
  ]
  | inr more_i ↦ elim (Bool-cases (nat_eq j 0)) [
    | inl zero_j ↦ absurd (other base (i + 1) (ground (arith, more_i, zero_j, e)))
    | inr more_j ↦ omega (arith, apart base (i + 1) (j + 1) (ground (arith, more_i, more_j, e)))
  ]
]

-- The loop finds an id that no depot has, within one try more than there are depots.
pub free_depot_id-total :
    (numbered : String → ℕ → String) (base : String) (existing : List String)
    → NumbersApart numbered
    → (id : String) × (free_depot_id numbered base existing ≡ some id) × (is_in id existing ≡ false)
unfolding free_depot_id
free_depot_id-total numbered base existing apart =
    let candidate = depot_candidate numbered base in
    let distinct = depot_candidate-distinct numbered base apart in
    go (free_loop candidate existing (length existing + 1) 0) refl
  where
    go :
        (found : Option String)
        → free_loop (depot_candidate numbered base) existing (length existing + 1) 0 ≡ found
        → (id : String) × (free_loop
              (depot_candidate numbered base)
              existing
              (length existing + 1)
              0
            ≡ some id)
          × (is_in id existing ≡ false)
    go none e =
        let many =
          free_loop-none (depot_candidate numbered base)
            (depot_candidate-distinct numbered base apart) (length existing + 1) 0 existing e in
        absurd (omega (arith, many))
    go (some id) e = (
      id,
      e,
      free_loop-is_in (depot_candidate numbered base) (depot_candidate-distinct numbered base apart)
          (length existing + 1) 0 existing id e,
    )

-- What the loop finds is the id of no depot.
pub free_depot_id-fresh :
    (numbered : String → ℕ → String) (base : String) (existing : List String) (id : String)
    → free_depot_id numbered base existing ≡ some id
    → is_in id existing ≡ false
unfolding free_depot_id
free_depot_id-fresh numbered base existing id h = found_free (length existing + 1) 0 h
  where
    found_free :
        (fuel n : ℕ)
        → free_loop (depot_candidate numbered base) existing fuel n ≡ some id
        → is_in id existing ≡ false
    found_free zero n e = absurd (cc)
    found_free (suc fuel) n e =
        elim (Bool-cases (is_in (depot_candidate numbered base n) existing)) [
          | inr free ↦
              let same : depot_candidate numbered base n ≡ id = ground (arith, free) in
              rw (← same) free
          | inl taken ↦ found_free fuel (n + 1) (ground (arith, taken))
        ]
