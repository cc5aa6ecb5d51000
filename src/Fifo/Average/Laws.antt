-- ===== src/Fifo/Average/Laws.antt =====
-- The price noted for a disposal is the average over the acquisitions before it.
use bitcoin_stack_tracker.Common.{
  ◌≤◌, leb, ℕ, ◌+◌, or_else, sum_of, keep, Bool, true, false, Option, none, some, String, List, [],
  ◌∷◌, ◌++◌, ◌≡◌, refl, ap, ◌∙◌, if◌then◌else◌, nat_eq, not, ◌&&◌, ◌==◌, texts, All, Bool-cases,
  Option-cases, inl, inr, arith, eq_iff, eq_refl,
}
use bitcoin_stack_tracker.Common.Int.{pos, pos_part}
use bitcoin_stack_tracker.Common.Dict.{lookup, lookup-insert}
use bitcoin_stack_tracker.Ledger.{
  Kind, purchase, income, stack, sale, expense, network_fee, other, Entry, Python, decimal_value,
  clipped_sats, is_text, sats_value, clipped_value,
}
use bitcoin_stack_tracker.Ledger.Order.{sorted_entries}
use bitcoin_stack_tracker.Fifo.Average.{
  Bucket, Averages, row_currency, bump, add_acquisition, average, add_disposal, average_kind,
  average_step, average_rows, cumulative_average_entry_price_by_disposition,
}

-- An acquisition of some BTC for a price in the currency.
is_acquisition : Kind → Bool
is_acquisition purchase = true
is_acquisition income = true
is_acquisition _ = false

unfoldable pub is_disposal : Kind → Bool
is_disposal sale = true
is_disposal expense = true
is_disposal _ = false

module _ {D : Type 0} (py : Python D) where
  -- The satoshis, the price and the fee of an acquisition; a negative amount or fee counts as 0.
  abbrev pub sats_of : Entry D → ℕ
  sats_of e = pos_part (or_else e.amount_btc (pos 0))

  abbrev pub price_of : Entry D → D
  price_of e = or_else e.price py.nought

  abbrev pub fee_of : Entry D → D
  fee_of e = if py.is_positive (or_else e.fee py.nought) then or_else e.fee py.nought else py.nought

  -- An acquisition of some BTC, priced in the currency.
  unfoldable pub counts_in : String → Entry D → Bool
  unfolding is_acquisition
  counts_in currency e =
      is_acquisition e.kind
      && (not (nat_eq (sats_of e) 0)
          && (not (currency == "")
              && (py.is_positive (price_of e) && py.upper (or_else e.currency "") == currency)))

  -- Amounts at their prices, with their fees, one after the other on top of `d`.
  abbrev pub cost_of : D → List (Entry D) → D
  cost_of d [] = d
  cost_of d (e ∷ es) =
      cost_of (py.plus d (py.plus (py.times (py.of_sats (sats_of e)) (price_of e)) (fee_of e))) es

  -- The cost of the acquisitions over their BTC, if there are any.
  abbrev pub average_price : List (Entry D) → Option D
  average_price [] = none
  average_price (e ∷ es) =
      some (py.over (cost_of py.nought (e ∷ es)) (py.of_sats (sum_of sats_of (e ∷ es))))

  -- The bucket of one currency alone.
  bucket_from : String → Option (Bucket D) → List (Entry D) → Option (Bucket D)
  unfolding counts_in
  bucket_from currency b [] = b
  bucket_from currency b (e ∷ es) =
      bucket_from currency (if counts_in currency e then some (bump py e b) else b) es

  bucket_from-some :
      (c : String) (b : Bucket D) (es : List (Entry D))
      → bucket_from c (some b) es
        ≡ some (record {
          btc = b.btc + sum_of sats_of (keep (counts_in c) es);
          basis = cost_of b.basis (keep (counts_in c) es);
        })
  unfolding bucket_from bump clipped_sats clipped_value decimal_value sats_value
  bucket_from-some c b [] = ap (λ n. some (record { btc = n; basis = b.basis })) (omega arith)
  bucket_from-some c b (e ∷ es) = elim (Bool-cases (counts_in c e)) [
    | inl fits ↦
        let next = bump py e (some b) in
        let more = sum_of sats_of (keep (counts_in c) es) in
        let same : next.btc + more ≡ b.btc + (sats_of e + more) = omega arith in
        rw fits (
          bucket_from-some c next es
          ∙ ap (λ n. some (record { btc = n; basis = cost_of next.basis (keep (counts_in c) es) }))
              same)
    | inr differs ↦ rw differs (bucket_from-some c b es)
  ]

  counts_in-positive : (c : String) (e : Entry D) → counts_in c e ≡ true → 1 ≤ sats_of e
  unfolding counts_in
  counts_in-positive c e h = ground (arith, h)

  average-some :
      (d : D) (n m : ℕ)
      → n ≡ m
      → 1 ≤ m
      → average py (some (record { btc = n; basis = d })) ≡ some (py.over d (py.of_sats m))
  unfolding average
  average-some d n m same more =
      let full : leb n 0 ≡ false = ground (arith, same, more) in rw (full, same) refl

  average_price-bucket :
      (c : String) (es : List (Entry D))
      → average py (bucket_from c none es) ≡ average_price (keep (counts_in c) es)
  unfolding bucket_from bump clipped_sats clipped_value decimal_value sats_value average
  average_price-bucket c [] = refl
  average_price-bucket c (e ∷ es) = elim (Bool-cases (counts_in c e)) [
    | inl fits ↦
        let next = bump py e none in
        let more = sum_of sats_of (keep (counts_in c) es) in
        rw fits (
          ap (average py) (bucket_from-some c next es)
          ∙ average-some (cost_of next.basis (keep (counts_in c) es)) (next.btc + more)
              (sats_of e + more) (omega arith) (omega (arith, counts_in-positive c e fits)))
    | inr differs ↦ rw differs (average_price-bucket c es)
  ]

  add_acquisition-totals :
      (c : String) (e : Entry D) (a : Averages D)
      → lookup c (add_acquisition py e a).totals ≡ (
          if is_text c && (py.is_positive (decimal_value py e.price) && row_currency py e == c)
          then some (bump py e (lookup c a.totals))
          else lookup c a.totals)
  unfolding add_acquisition
  add_acquisition-totals c e a = elim (Bool-cases (row_currency py e == c)) [
    | inl same ↦
        rw ((eq_iff (row_currency py e) c).0 same)
          (ground (arith, eq_refl c, lookup-insert c c (bump py e (lookup c a.totals)) a.totals))
    | inr differs ↦
        let key = row_currency py e in
        ground (arith, differs, lookup-insert key c (bump py e (lookup key a.totals)) a.totals)
  ]

  add_disposal-totals : (e : Entry D) (a : Averages D) → (add_disposal py e a).totals ≡ a.totals
  unfolding add_disposal
  add_disposal-totals e a = ground arith

  average_kind-totals :
      (c : String) (k : Kind) (e : Entry D) (a : Averages D)
      → lookup c (average_kind py k e a).totals ≡ (
          if is_acquisition k
            && (is_text c && (py.is_positive (decimal_value py e.price) && row_currency py e == c))
          then some (bump py e (lookup c a.totals))
          else lookup c a.totals)
  unfolding average_kind is_acquisition
  average_kind-totals c purchase e a = add_acquisition-totals c e a
  average_kind-totals c income e a = add_acquisition-totals c e a
  average_kind-totals c sale e a = rw (add_disposal-totals e a) refl
  average_kind-totals c expense e a = rw (add_disposal-totals e a) refl
  average_kind-totals c stack e a = refl
  average_kind-totals c network_fee e a = refl
  average_kind-totals c other e a = refl

  average_step-totals :
      (c : String) (a : Averages D) (e : Entry D)
      → lookup c (average_step py a e).totals
        ≡ (if counts_in c e then some (bump py e (lookup c a.totals)) else lookup c a.totals)
  unfolding average_step counts_in
  average_step-totals c a e = elim (Bool-cases (nat_eq (clipped_sats e.amount_btc) 0)) [
    | inl nothing ↦ rw nothing (ground arith)
    | inr amount ↦ rw amount (average_kind-totals c e.kind e a)
  ]

  average_rows-totals :
      (c : String) (a : Averages D) (es : List (Entry D))
      → lookup c (average_rows py a es).totals ≡ bucket_from c (lookup c a.totals) es
  unfolding average_rows bucket_from
  average_rows-totals c a [] = refl
  average_rows-totals c a (e ∷ es) =
      average_rows-totals c (average_step py a e) es ∙ rw (average_step-totals c a e) refl

  add_disposal-other :
      (id : String) (e : Entry D) (a : Averages D)
      → (e.id == id) ≡ false
      → lookup id (add_disposal py e a).result ≡ lookup id a.result
  unfolding add_disposal
  add_disposal-other id e a differs =
      elim (Option-cases (average py (lookup (row_currency py e) a.totals))) [
        | inl none_yet ↦ ground (arith, none_yet)
        | inr (price, known) ↦ ground (arith, known, differs, lookup-insert e.id id price a.result)
      ]

  add_acquisition-result :
      (e : Entry D) (a : Averages D) → (add_acquisition py e a).result ≡ a.result
  unfolding add_acquisition
  add_acquisition-result e a = ground arith

  average_kind-other :
      (id : String) (k : Kind) (e : Entry D) (a : Averages D)
      → (e.id == id) ≡ false
      → lookup id (average_kind py k e a).result ≡ lookup id a.result
  unfolding average_kind
  average_kind-other id purchase e a differs = rw (add_acquisition-result e a) refl
  average_kind-other id income e a differs = rw (add_acquisition-result e a) refl
  average_kind-other id sale e a differs = add_disposal-other id e a differs
  average_kind-other id expense e a differs = add_disposal-other id e a differs
  average_kind-other id stack e a differs = refl
  average_kind-other id network_fee e a differs = refl
  average_kind-other id other e a differs = refl

  -- A row of another id leaves the price of a disposal as it is.
  average_step-other :
      (id : String) (a : Averages D) (e : Entry D)
      → (e.id == id) ≡ false
      → lookup id (average_step py a e).result ≡ lookup id a.result
  unfolding average_step
  average_step-other id a e differs = elim (Bool-cases (nat_eq (clipped_sats e.amount_btc) 0)) [
    | inl nothing ↦ rw nothing refl
    | inr amount ↦ rw amount (average_kind-other id e.kind e a differs)
  ]

  average_rows-other :
      (id : String) (a : Averages D) (es : List (Entry D))
      → All (λ e. (e.id == id) ≡ false) es
      → lookup id (average_rows py a es).result ≡ lookup id a.result
  unfolding average_rows
  average_rows-other id a [] h = refl
  average_rows-other id a (e ∷ es) h =
      average_rows-other id (average_step py a e) es h.1 ∙ average_step-other id a e h.0

  average_rows-append :
      (a : Averages D) (xs ys : List (Entry D))
      → average_rows py a (xs ++ ys) ≡ average_rows py (average_rows py a xs) ys
  unfolding average_rows
  average_rows-append a [] ys = refl
  average_rows-append a (x ∷ xs) ys = average_rows-append (average_step py a x) xs ys

  add_disposal-result :
      (e : Entry D) (a : Averages D)
      → is_text e.id ≡ true
      → is_text (row_currency py e) ≡ true
      → lookup e.id a.result ≡ none
      → lookup e.id (add_disposal py e a).result ≡ average py (lookup (row_currency py e) a.totals)
  unfolding add_disposal
  add_disposal-result e a named priced fresh =
      elim (Option-cases (average py (lookup (row_currency py e) a.totals))) [
        | inl none_yet ↦ ground (arith, none_yet, named, priced, fresh)
        | inr (price, known) ↦
            ground
              (arith, known, named, priced, lookup-insert e.id e.id price a.result, eq_refl e.id)
      ]

disposal_kind :
    {D : Type 0} (py : Python D) (e : Entry D) (a : Averages D) (k : Kind)
    → is_disposal k ≡ true
    → average_kind py k e a ≡ add_disposal py e a
unfolding is_disposal average_kind
disposal_kind py e a purchase h = absurd (cc)
disposal_kind py e a income h = absurd (cc)
disposal_kind py e a sale h = refl
disposal_kind py e a expense h = refl
disposal_kind py e a stack h = absurd (cc)
disposal_kind py e a network_fee h = absurd (cc)
disposal_kind py e a other h = absurd (cc)

-- Where the sorted ledger reads `before`, a sale or an expense `e` of some BTC with an id and a
-- currency, `after`, and no other row has its id, the price noted for it is that of the purchases and
-- the income priced in its currency among the rows before it: the sum of their amounts at their
-- prices and their fees, over the sum of their BTC; no price is noted if there are none.
pub cumulative_average-before :
    {D : Type 0} (py : Python D) (entries before after : List (Entry D)) (e : Entry D)
    → sorted_entries py entries ≡ before ++ e ∷ after
    → is_disposal e.kind ≡ true
    → nat_eq (clipped_sats e.amount_btc) 0 ≡ false
    → is_text e.id ≡ true
    → is_text (row_currency py e) ≡ true
    → All (λ x. (x.id == e.id) ≡ false) before
    → All (λ x. (x.id == e.id) ≡ false) after
    → lookup e.id (cumulative_average_entry_price_by_disposition py entries)
      ≡ average_price py (keep (counts_in py (py.upper (or_else e.currency ""))) before)
unfolding cumulative_average_entry_price_by_disposition average_rows average_step row_currency
cumulative_average-before py entries before after e split kind amount named priced first last =
    let start : Averages _ = record { totals = []; result = [] } in
    let a = average_rows py start before in
    let stepped : average_step py a e ≡ add_disposal py e a =
      rw amount (disposal_kind py e a e.kind kind) in
    ap (λ rows. lookup e.id (average_rows py start rows).result) split
    ∙ (ap (λ b. lookup e.id b.result) (average_rows-append py start before (e ∷ after))
        ∙ (average_rows-other py e.id (average_step py a e) after last
            ∙ (ap (λ b. lookup e.id b.result) stepped
                ∙ (add_disposal-result py e a named priced
                      (average_rows-other py e.id start before first)
                    ∙ (ap (average py) (average_rows-totals py (row_currency py e) start before)
                        ∙ average_price-bucket py (row_currency py e) before)))))
