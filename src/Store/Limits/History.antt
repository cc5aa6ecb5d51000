-- ===== src/Store/Limits/History.antt =====
-- Whatever calls are made, the ledger stays within its limits.
use bitcoin_stack_tracker.Common.{
  refl, if◌then◌else◌, Bool, true, false, Option, String, List, [], ◌∷◌, texts, arith,
}
use bitcoin_stack_tracker.Common.Int.{ℤ}
use bitcoin_stack_tracker.Ledger.{Python, Datetime}
use bitcoin_stack_tracker.Fifo.Books.{Details}
use bitcoin_stack_tracker.Security.State.{is_password}
use bitcoin_stack_tracker.Store.Data.{Texts, Store}
use bitcoin_stack_tracker.Store.Save.{lock_store, empty_data}
use bitcoin_stack_tracker.Store.Guard.{RowCall, after_row_call}
use bitcoin_stack_tracker.Store.Depots.{
  add_depot, delete_depot, add_goal, delete_goal, update_goal, set_tax_settings,
}
use bitcoin_stack_tracker.Store.Limits.{IsLimited}
use bitcoin_stack_tracker.Store.Limits.Depots.{
  add_depot-IsLimited, delete_depot-IsLimited, add_goal-IsLimited, delete_goal-IsLimited,
  update_goal-IsLimited, set_tax_settings-IsLimited,
}
use bitcoin_stack_tracker.Store.Limits.Rows.{after_row_call-IsLimited}

-- The calls that change the ledger.
pub data StoreCall (D : Type 0) : Type 0 where
  changes_rows : RowCall D → StoreCall D
  adds_depot : Datetime → String → StoreCall D
  deletes_depot : Datetime → String → StoreCall D
  adds_goal : Datetime → String → String → D → String → String → StoreCall D
  deletes_goal : Datetime → String → StoreCall D
  updates_goal :
      Datetime → String → Option D → Option String → Option String → Option String → StoreCall D
  sets_tax : Datetime → ℤ → String → StoreCall D
  locks : String → StoreCall D

empty_data-IsLimited : (D : Type 0) (note : String) → IsLimited (empty_data {D = D} note)
unfolding IsLimited empty_data
empty_data-IsLimited D note = (omega arith, omega arith, omega arith, (refl, tt), refl)

module _ {D : Type 0} (py : Python D) (tx : Texts D) (details : Details) where
  unfoldable pub after_store_call : StoreCall D → Store D → Store D
  unfolding after_row_call add_depot delete_depot add_goal delete_goal update_goal set_tax_settings
      lock_store
  after_store_call (changes_rows call) s = after_row_call py tx details call s
  after_store_call (adds_depot now name) s = (add_depot py tx details now name s).1
  after_store_call (deletes_depot now depot_id) s = (delete_depot py tx details now depot_id s).1
  after_store_call (adds_goal now id name amount depot_id currency) s =
      (add_goal py tx details now id name amount depot_id currency s).1
  after_store_call (deletes_goal now goal_id) s = (delete_goal py tx details now goal_id s).1
  after_store_call (updates_goal now goal_id amount name depot_id currency) s =
      (update_goal py tx details now goal_id amount name depot_id currency s).1
  after_store_call (sets_tax now days note) s = (set_tax_settings py tx details now days note s).1
  after_store_call (locks note) s = lock_store note s

  unfoldable pub store_history : List (StoreCall D) → Store D → Store D
  unfolding after_store_call
  store_history [] s = s
  store_history (c ∷ cs) s = store_history cs (after_store_call c s)

  lock_store-IsLimited :
      (note : String) (s : Store D) → IsLimited s.ledger → IsLimited (lock_store note s).ledger
  unfolding lock_store
  lock_store-IsLimited note s l =
      locked_if (is_password s.encryption_mode) _ _ (empty_data-IsLimited D note) l
    where
      locked_if :
          (b : Bool) (x y : Store D)
          → IsLimited x.ledger
          → IsLimited y.ledger
          → IsLimited (if b then x else y).ledger
      locked_if true x y hx hy = hx
      locked_if false x y hx hy = hy

  after_store_call-IsLimited :
      (call : StoreCall D) (s : Store D)
      → IsLimited s.ledger
      → IsLimited (after_store_call call s).ledger
  unfolding after_store_call
  after_store_call-IsLimited (changes_rows call) s l =
      after_row_call-IsLimited py tx details call s l
  after_store_call-IsLimited (adds_depot now name) s l =
      add_depot-IsLimited py tx details now name s l
  after_store_call-IsLimited (deletes_depot now depot_id) s l =
      delete_depot-IsLimited py tx details now depot_id s l
  after_store_call-IsLimited (adds_goal now id name amount depot_id currency) s l =
      add_goal-IsLimited py tx details now id name amount depot_id currency s l
  after_store_call-IsLimited (deletes_goal now goal_id) s l =
      delete_goal-IsLimited py tx details now goal_id s l
  after_store_call-IsLimited (updates_goal now goal_id amount name depot_id currency) s l =
      update_goal-IsLimited py tx details now goal_id amount name depot_id currency s l
  after_store_call-IsLimited (sets_tax now days note) s l =
      set_tax_settings-IsLimited py tx details now days note s l
  after_store_call-IsLimited (locks note) s l = lock_store-IsLimited note s l

  -- A ledger of at most 25,000 rows, 10 depots with distinct ids, one of them "main", and 20 goals
  -- is so after any sequence of changes to rows, depots, goals and settings, of imports and of
  -- locks, whichever of these calls fail.
  pub store_history-IsLimited :
      (cs : List (StoreCall D)) (s : Store D)
      → IsLimited s.ledger
      → IsLimited (store_history cs s).ledger
  unfolding store_history
  store_history-IsLimited [] s l = l
  store_history-IsLimited (call ∷ cs) s l =
      store_history-IsLimited cs (after_store_call call s) (after_store_call-IsLimited call s l)
