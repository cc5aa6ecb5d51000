-- ===== src/Store/Depots.antt =====
-- The calls that change depots, goals and settings.
pub mod Ids
use bitcoin_stack_tracker.Common.{
  ℕ, zero, suc, ◌+◌, Bool, true, false, Option, none, some, String, List, [], ◌∷◌, ◌++◌,
  if◌then◌else◌, leb, length, nat_eq, keep, not, ◌==◌, texts, ◌&&◌, ◌||◌, or_else,
}
use bitcoin_stack_tracker.Common.Int.{ℤ, pos, ltb_ℤ}
use bitcoin_stack_tracker.Common.Set.{is_in}
use bitcoin_stack_tracker.Ledger.{Python, Datetime, is_text}
use bitcoin_stack_tracker.Ledger.Slug.{slugify}
use bitcoin_stack_tracker.Fifo.Books.{Details}
use bitcoin_stack_tracker.Security.State.{
  Result, ok, error, Error, vault_locked, value_error, runtime_error,
}
use bitcoin_stack_tracker.Store.Data.{
  Texts, Row, Depot, Goal, TaxSettings, LedgerData, Store, max_depots, max_goals, default_depot_id,
  all_depots,
}
use bitcoin_stack_tracker.Store.Save.{save_ledger}
use bitcoin_stack_tracker.Store.Changes.{any_depot, max_note_length}

-- `MAX_NAME_LENGTH`
abbrev pub max_name_length : ℕ
max_name_length = 80

abbrev pub depot_ids : List Depot → List String
depot_ids [] = []
depot_ids (d ∷ ds) = d.id ∷ depot_ids ds

-- The ids that the loop of `async_add_depot` tries: the base, then the base with 2, 3, …
unfoldable pub depot_candidate : (String → ℕ → String) → String → ℕ → String
depot_candidate numbered base n = if nat_eq n 0 then base else numbered base (n + 1)

-- `while depot_id in existing`, from the n-th candidate on.
unfoldable pub free_loop : (ℕ → String) → List String → ℕ → ℕ → Option String
free_loop candidate existing zero n = none
free_loop candidate existing (suc fuel) n =
    let rest = free_loop candidate existing fuel (n + 1) in
    if is_in (candidate n) existing then rest else some (candidate n)

-- One more candidate than there are ids is enough.
unfoldable pub free_depot_id : (String → ℕ → String) → String → List String → Option String
unfolding free_loop depot_candidate
free_depot_id numbered base existing =
    free_loop (depot_candidate numbered base) existing (length existing + 1) 0

unfoldable pub any_row_in : {D : Type 0} → String → List (Row D) → Bool
any_row_in depot_id [] = false
any_row_in depot_id (r ∷ rs) =
    elim r.entry.depot_id [ none ↦ false | some d ↦ d == depot_id ] || any_row_in depot_id rs

module _ {D : Type 0} (py : Python D) (tx : Texts D) (details : Details) where
  -- A change of the ledger's other fields, and the save with fresh summaries.
  unfoldable pub save_change : Datetime → LedgerData D → Store D → Result Unit × Store D
  unfolding save_ledger
  save_change now ledger s = save_ledger py details now true (record s { ledger = ledger })

  -- `async_add_depot`. The RuntimeError stands for a loop that does not end.
  unfoldable pub add_depot : Datetime → String → Store D → Result Depot × Store D
  unfolding is_text slugify free_depot_id save_change
  add_depot now name s =
      let clean = tx.clip max_name_length (tx.strip name) in
      if not (is_text clean)
      then (error value_error, s)
      else if leb max_depots (length s.ledger.depots)
      then (error value_error, s)
      else elim (free_depot_id tx.numbered (slugify tx.ascii clean "depot")
          (depot_ids s.ledger.depots)) [
            | none ↦ (error runtime_error, s)
            | some id ↦
                let depot : Depot = record { id = id; name = clean } in
                let (done, t) =
                  save_change now (record s.ledger { depots = s.ledger.depots ++ depot ∷ [] }) s in
                (elim done [ error e ↦ error e | ok _ ↦ ok depot ], t)
          ]

  -- `async_delete_depot`: the depot and its goals go; goals go also where there is no such depot.
  unfoldable pub delete_depot : Datetime → String → Store D → Result Bool × Store D
  unfolding any_row_in save_change
  delete_depot now depot_id s =
      let depots = keep (λ d. not (d.id == depot_id)) s.ledger.depots in
      let goals = keep (λ g. not (g.depot_id == depot_id)) s.ledger.goals in
      let ledger = record s.ledger { depots = depots; goals = goals } in
      if depot_id == default_depot_id
      then (ok false, s)
      else if any_row_in depot_id s.ledger.entries
      then (error value_error, s)
      else if nat_eq (length depots) (length s.ledger.depots)
      then (ok false, record s { ledger = ledger })
      else let (done, t) = save_change now ledger s in
        (elim done [ error e ↦ error e | ok _ ↦ ok true ], t)

  -- `async_add_goal`
  unfoldable pub add_goal :
      Datetime → String → String → D → String → String → Store D → Result Goal × Store D
  unfolding any_depot is_text save_change
  add_goal now id name amount depot_id currency s =
      let clean = tx.clip max_name_length (tx.strip name) in
      let goal : Goal = record {
        id = id;
        name = if is_text clean then clean else tx.btc_label amount;
        amount_btc = tx.to_sats amount;
        depot_id = depot_id;
        currency = py.upper (if is_text currency then currency else "EUR");
      } in
      if not (py.is_positive amount)
      then (error value_error, s)
      else if not (depot_id == all_depots || any_depot depot_id s.ledger.depots)
      then (error value_error, s)
      else if leb max_goals (length s.ledger.goals)
      then (error value_error, s)
      else let (done, t) =
          save_change now (record s.ledger { goals = s.ledger.goals ++ goal ∷ [] }) s in
        (elim done [ error e ↦ error e | ok _ ↦ ok goal ], t)

  -- `async_delete_goal`
  unfoldable pub delete_goal : Datetime → String → Store D → Result Bool × Store D
  unfolding save_change
  delete_goal now goal_id s =
      let goals = keep (λ g. not (g.id == goal_id)) s.ledger.goals in
      let ledger = record s.ledger { goals = goals } in
      if nat_eq (length goals) (length s.ledger.goals)
      then (ok false, record s { ledger = ledger })
      else let (done, t) = save_change now ledger s in
        (elim done [ error e ↦ error e | ok _ ↦ ok true ], t)

  -- The fields that `async_update_goal` writes; none for an argument that is None.
  unfoldable pub updated_goal :
      Option D → Option String → Option String → Option String → Goal → Goal
  unfolding is_text
  updated_goal amount name depot_id currency g = record g {
    amount_btc = elim amount [ none ↦ g.amount_btc | some a ↦ tx.to_sats a ];
    name = elim name [
      | none ↦ g.name
      | some n ↦ if is_text (tx.strip n) then tx.clip max_name_length (tx.strip n) else g.name
    ];
    depot_id = or_else depot_id g.depot_id;
    currency = elim currency [
      | none ↦ g.currency
      | some c ↦ if is_text (tx.strip c) then py.upper (tx.strip c) else g.currency
    ];
  }

  -- The goals with the first of that id changed, if there is one.
  unfoldable pub change_goal : String → (Goal → Goal) → List Goal → Option (List Goal)
  change_goal goal_id change [] = none
  change_goal goal_id change (g ∷ gs) =
      let rest = change_goal goal_id change gs in
      if g.id == goal_id
      then some (change g ∷ gs)
      else elim rest [ none ↦ none | some hs ↦ some (g ∷ hs) ]

  -- `async_update_goal`
  unfoldable pub update_goal :
      Datetime
      → String
      → Option D
      → Option String
      → Option String
      → Option String
      → Store D
      → Result Bool × Store D
  unfolding any_depot updated_goal change_goal save_change
  update_goal now goal_id amount name depot_id currency s =
      let refused : Bool = elim amount [ none ↦ false | some a ↦ not (py.is_positive a) ] in
      let elsewhere : Bool = elim depot_id [ none ↦ false | some d ↦ not (d == all_depots) ] in
      let unknown : Bool = elim depot_id [
        | none ↦ false
        | some d ↦ not (any_depot d s.ledger.depots)
      ] in
      if refused
      then (error value_error, s)
      else if elsewhere && s.locked
      then (error vault_locked, s)
      else if elsewhere && unknown
      then (error value_error, s)
      else elim (change_goal goal_id (updated_goal amount name depot_id currency) s.ledger.goals) [
        | none ↦ (ok false, s)
        | some goals ↦
            let (done, t) = save_change now (record s.ledger { goals = goals }) s in
            (elim done [ error e ↦ error e | ok _ ↦ ok true ], t)
      ]

  -- `async_set_tax_settings` of storage.py.
  unfoldable pub set_tax_settings : Datetime → ℤ → String → Store D → Result TaxSettings × Store D
  unfolding save_change
  set_tax_settings now days note s =
      let settings : TaxSettings = record {
        long_term_days = days;
        note = tx.clip max_note_length (tx.strip note);
      } in
      if ltb_ℤ days (pos 1)
      then (error value_error, s)
      else let (done, t) = save_change now (record s.ledger { tax_settings = settings }) s in
        (elim done [ error e ↦ error e | ok _ ↦ ok settings ], t)
