-- ===== src/Fifo/Conservation/Flow.antt =====
-- What a ledger row brings in and takes out, and that the expansion and the sort keep both.
use bitcoin_stack_tracker.Common.{
  ℕ, ◌+◌, String, ◌≡◌, refl, ◌∙◌, Bool, Option, List, [], ◌∷◌, if◌then◌else◌, sum_of, sum_if,
  sum_if-append, keep, arith,
}
use bitcoin_stack_tracker.Ledger.{
  Kind, purchase, income, stack, sale, expense, network_fee, other, Entry, Python, clipped_sats,
}
use bitcoin_stack_tracker.Ledger.Order.{sorted_entries, sorted_entries-sum_if}
use bitcoin_stack_tracker.Fifo.Expand.{
  expanded, with_fee_disposal, network_fee_disposal, btc_fee_disposal,
  entries_with_btc_fee_disposals,
}
use bitcoin_stack_tracker.Fifo.Rows.{in_depot, filtered}

-- The BTC that a row of this kind and amount brings in.
abbrev pub inflow_of : Kind → ℕ → ℕ
inflow_of purchase amount = amount
inflow_of income amount = amount
inflow_of stack amount = amount
inflow_of _ amount = 0

-- The BTC that it takes out, as a row of the expanded ledger.
abbrev pub outflow_of : Kind → ℕ → ℕ
outflow_of sale amount = amount
outflow_of expense amount = amount
outflow_of _ amount = 0

abbrev pub inflow : {D : Type 0} → Entry D → ℕ
inflow e = inflow_of e.kind (clipped_sats e.amount_btc)

abbrev pub outflow : {D : Type 0} → Entry D → ℕ
outflow e = outflow_of e.kind (clipped_sats e.amount_btc)

-- What a row of the ledger takes out: a network fee is an outflow too, and so is the BTC fee of any
-- other row, where it affects the stack.
abbrev pub spent_of : Kind → ℕ → ℕ → ℕ
spent_of network_fee amount fee = amount
spent_of kind amount fee = outflow_of kind amount + fee

abbrev pub spent : {D : Type 0} → Entry D → ℕ
spent e =
    spent_of e.kind (clipped_sats e.amount_btc)
      (if e.fee_btc_affects_stack then clipped_sats e.fee_btc else 0)

sum_of-keep :
    {A : Type 0} (p : A → Bool) (f : A → ℕ) (xs : List A) → sum_of f (keep p xs) ≡ sum_if p f xs
sum_of-keep p f [] = refl
sum_of-keep p f (x ∷ xs) = ground (arith, sum_of-keep p f xs)

module _ {D : Type 0} (py : Python D) (depot : Option String) where
  in_depot-btc_fee : (e : Entry D) → in_depot depot (btc_fee_disposal py e) ≡ in_depot depot e
  unfolding in_depot btc_fee_disposal
  in_depot-btc_fee e = ground arith

  outflow-btc_fee : (e : Entry D) → outflow (btc_fee_disposal py e) ≡ clipped_sats e.fee_btc
  unfolding btc_fee_disposal clipped_sats
  outflow-btc_fee e = refl

  inflow-btc_fee : (e : Entry D) → inflow (btc_fee_disposal py e) ≡ 0
  unfolding btc_fee_disposal
  inflow-btc_fee e = refl

  in_depot-network_fee :
      (e : Entry D) → in_depot depot (network_fee_disposal py e) ≡ in_depot depot e
  unfolding in_depot network_fee_disposal
  in_depot-network_fee e = ground arith

  -- The row and its BTC fee stand for the row.
  with_fee-flows :
      (e : Entry D)
      → (sum_if (in_depot depot) inflow (with_fee_disposal py e)
          ≡ (if in_depot depot e then inflow e else 0))
        × (sum_if (in_depot depot) outflow (with_fee_disposal py e) ≡ (
            if in_depot depot e
            then outflow e + (if e.fee_btc_affects_stack then clipped_sats e.fee_btc else 0)
            else 0))
  unfolding with_fee_disposal
  with_fee-flows e = ground (arith, in_depot-btc_fee e, outflow-btc_fee e, inflow-btc_fee e)

  network_fee-flows :
      (e : Entry D)
      → (sum_if (in_depot depot) inflow (network_fee_disposal py e ∷ []) ≡ 0)
        × (sum_if (in_depot depot) outflow (network_fee_disposal py e ∷ [])
            ≡ (if in_depot depot e then clipped_sats e.amount_btc else 0))
  unfolding network_fee_disposal
  network_fee-flows e = ground (arith, in_depot-network_fee e)

  expanded-flows :
      (k : Kind) (e : Entry D)
      → e.kind ≡ k
      → (sum_if (in_depot depot) inflow (expanded py k e)
          ≡ (if in_depot depot e then inflow e else 0))
        × (sum_if (in_depot depot) outflow (expanded py k e)
            ≡ (if in_depot depot e then spent e else 0))
  unfolding expanded
  expanded-flows network_fee e h = ground (arith, network_fee-flows e)
  expanded-flows purchase e h = ground (arith, with_fee-flows e)
  expanded-flows income e h = ground (arith, with_fee-flows e)
  expanded-flows stack e h = ground (arith, with_fee-flows e)
  expanded-flows sale e h = ground (arith, with_fee-flows e)
  expanded-flows expense e h = ground (arith, with_fee-flows e)
  expanded-flows other e h = ground (arith, with_fee-flows e)

  entries-flows :
      (es : List (Entry D))
      → (sum_if (in_depot depot) inflow (entries_with_btc_fee_disposals py es)
          ≡ sum_if (in_depot depot) inflow es)
        × (sum_if (in_depot depot) outflow (entries_with_btc_fee_disposals py es)
            ≡ sum_if (in_depot depot) spent es)
  unfolding entries_with_btc_fee_disposals
  entries-flows [] = (refl, refl)
  entries-flows (e ∷ es) =
      let row = expanded py e.kind e in
      let rest = entries_with_btc_fee_disposals py es in
      ground (
        arith,
        expanded-flows e.kind e refl,
        entries-flows es,
        sum_if-append (in_depot depot) inflow row rest,
        sum_if-append (in_depot depot) outflow row rest,
      )

  -- The rows that `fifo_result` goes through bring in and take out what the ledger's rows do.
  pub filtered-flows :
      (es : List (Entry D))
      → (sum_of inflow (filtered py depot es) ≡ sum_if (in_depot depot) inflow es)
        × (sum_of outflow (filtered py depot es) ≡ sum_if (in_depot depot) spent es)
  unfolding filtered
  filtered-flows es =
      let rows = entries_with_btc_fee_disposals py es in
      (
        sum_of-keep (in_depot depot) inflow (sorted_entries py rows)
            ∙ sorted_entries-sum_if py (in_depot depot) inflow rows
            ∙ (entries-flows es).0,
        sum_of-keep (in_depot depot) outflow (sorted_entries py rows)
            ∙ sorted_entries-sum_if py (in_depot depot) outflow rows
            ∙ (entries-flows es).1,
      )
