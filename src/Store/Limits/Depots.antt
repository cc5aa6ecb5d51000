-- ===== src/Store/Limits/Depots.antt =====
-- The calls that change depots, goals and settings keep the limits.
use bitcoin_stack_tracker.Common.{
  ◌≤◌, ◌≡◌, true, false, Option, some, String, List, [], ◌∷◌, ◌++◌, length, length-append, not,
  ◌==◌, texts, inl, inr, Option-cases, arith, eq_iff, keep, leb, ◌||◌,
}
use bitcoin_stack_tracker.Common.Int.{ℤ, pos, ltb_ℤ}
use bitcoin_stack_tracker.Ledger.{Python, Datetime, is_text}
use bitcoin_stack_tracker.Ledger.Slug.{slugify}
use bitcoin_stack_tracker.Fifo.Books.{Details}
use bitcoin_stack_tracker.Store.Data.{
  Texts, Depot, Goal, LedgerData, Store, max_depots, max_goals, default_depot_id,
}
use bitcoin_stack_tracker.Store.Changes.{any_depot}
use bitcoin_stack_tracker.Store.Depots.{
  depot_ids, free_depot_id, save_change, add_depot, delete_depot, add_goal, delete_goal,
  updated_goal, change_goal, update_goal, set_tax_settings,
}
use bitcoin_stack_tracker.Store.Depots.Ids.{free_depot_id-fresh}
use bitcoin_stack_tracker.Store.Limits.{
  IsLimited, length-keep, is_in-snoc, IsUnique-snoc, depot_ids-snoc, is_in-without,
  IsUnique-without, change_goal-length, saved-IsLimited, limited_if,
}

module _ {D : Type 0} (py : Python D) (tx : Texts D) (details : Details) where
  -- A change of the other fields, saved: the ledger has them, whatever the save does.
  pub save_change-IsLimited :
      (now : Datetime) (l : LedgerData D) (s : Store D)
      → IsLimited l
      → IsLimited (save_change py tx details now l s).1.ledger
  unfolding save_change
  save_change-IsLimited now l s h =
      saved-IsLimited py tx details now true (record s { ledger = l }) h

  pub free_depot-IsLimited :
      (base name id : String) (l : LedgerData D)
      → free_depot_id tx.numbered base (depot_ids l.depots) ≡ some id
      → leb max_depots (length l.depots) ≡ false
      → IsLimited l
      → IsLimited (record l { depots = l.depots ++ record { id = id; name = name } ∷ [] })
  unfolding IsLimited
  free_depot-IsLimited base name id l found room (n, d, g, u, m) =
      let depot : Depot = record { id = id; name = name } in
      let fresh = free_depot_id-fresh tx.numbered base (depot_ids l.depots) id found in
      let ids = depot_ids-snoc l.depots depot in
      (
        n,
        ground (arith, room, length-append l.depots (depot ∷ [])),
        g,
        rw ids (IsUnique-snoc id (depot_ids l.depots) fresh u),
        rw ids (ground (arith, is_in-snoc default_depot_id id (depot_ids l.depots), m)),
      )

  pub add_depot-IsLimited :
      (now : Datetime) (name : String) (s : Store D)
      → IsLimited s.ledger
      → IsLimited (add_depot py tx details now name s).1.ledger
  unfolding add_depot
  add_depot-IsLimited now name s l =
      let clean = tx.clip 80 (tx.strip name) in
      let base = slugify tx.ascii clean "depot" in
      elim (Option-cases (free_depot_id tx.numbered base (depot_ids s.ledger.depots))) [
        | inl e ↦ ground (arith, e, l)
        | inr (id, e) ↦
            limited_if (not (is_text clean)) _ _ (λ f. l)
              (λ f.
                limited_if (leb max_depots (length s.ledger.depots)) _ _ (λ g. l)
                  (λ g. ground (
                    arith,
                    e,
                    save_change-IsLimited now
                        (record s.ledger {
                          depots = s.ledger.depots ++ record { id = id; name = clean } ∷ [];
                        })
                        s (free_depot-IsLimited base clean id s.ledger e g l),
                  )))
      ]

  pub without_depot-IsLimited :
      (gone : String) (l : LedgerData D)
      → (gone == default_depot_id) ≡ false
      → IsLimited l
      → IsLimited (record l {
        depots = keep (λ d. not (d.id == gone)) l.depots;
        goals = keep (λ g. not (g.depot_id == gone)) l.goals;
      })
  unfolding IsLimited
  without_depot-IsLimited gone l other (n, d, g, u, m) = (
    n,
    omega (arith, length-keep (λ e. not (e.id == gone)) l.depots, d),
    omega (arith, length-keep (λ e. not (e.depot_id == gone)) l.goals, g),
    IsUnique-without gone l.depots u,
    ground (
      arith,
      is_in-without default_depot_id gone l.depots,
      m,
      other,
      eq_iff default_depot_id gone,
      eq_iff gone default_depot_id,
    ),
  )

  pub delete_depot-IsLimited :
      (now : Datetime) (depot_id : String) (s : Store D)
      → IsLimited s.ledger
      → IsLimited (delete_depot py tx details now depot_id s).1.ledger
  unfolding delete_depot
  delete_depot-IsLimited now depot_id s l =
      limited_if (depot_id == default_depot_id) _ _ (λ e. l)
        (λ e.
          let after = without_depot-IsLimited depot_id s.ledger e l in
          ground (arith, l, after, save_change-IsLimited now _ s after))

  one_more :
      (d : LedgerData D) (goal : Goal)
      → leb max_goals (length d.goals) ≡ false
      → IsLimited d
      → IsLimited (record d { goals = d.goals ++ goal ∷ [] })
  unfolding IsLimited
  one_more d goal room (n, e, g, u, m) =
      (n, e, ground (arith, room, length-append d.goals (goal ∷ [])), u, m)

  with_goals :
      (d : LedgerData D) (goals : List Goal)
      → length goals ≤ length d.goals
      → IsLimited d
      → IsLimited (record d { goals = goals })
  unfolding IsLimited
  with_goals d goals fewer (n, e, g, u, m) = (n, e, omega (arith, fewer, g), u, m)

  pub add_goal-IsLimited :
      (now : Datetime) (id name : String) (amount : D) (depot_id currency : String) (s : Store D)
      → IsLimited s.ledger
      → IsLimited (add_goal py tx details now id name amount depot_id currency s).1.ledger
  unfolding add_goal
  add_goal-IsLimited now id name amount depot_id currency s l =
      limited_if (not (py.is_positive amount)) _ _ (λ e. l)
        (λ e.
          limited_if (not (depot_id == "all" || any_depot depot_id s.ledger.depots)) _ _ (λ f. l)
            (λ f.
              limited_if (leb max_goals (length s.ledger.goals)) _ _ (λ g. l)
                (λ g. save_change-IsLimited now _ s (one_more s.ledger _ g l))))

  pub delete_goal-IsLimited :
      (now : Datetime) (goal_id : String) (s : Store D)
      → IsLimited s.ledger
      → IsLimited (delete_goal py tx details now goal_id s).1.ledger
  unfolding delete_goal
  delete_goal-IsLimited now goal_id s l =
      let after =
        with_goals s.ledger (keep (λ g. not (g.id == goal_id)) s.ledger.goals)
          (length-keep (λ g. not (g.id == goal_id)) s.ledger.goals) l in
      ground (arith, after, save_change-IsLimited now _ s after)

  pub update_goal-IsLimited :
      (now : Datetime) (goal_id : String) (amount : Option D)
      (name depot_id currency : Option String) (s : Store D)
      → IsLimited s.ledger
      → IsLimited (update_goal py tx details now goal_id amount name depot_id currency s).1.ledger
  unfolding update_goal
  update_goal-IsLimited now goal_id amount name depot_id currency s l =
      let change = updated_goal py tx details amount name depot_id currency in
      elim (Option-cases (change_goal py tx details goal_id change s.ledger.goals)) [
        | inl e ↦ ground (arith, e, l)
        | inr (goals, e) ↦
            let as_many = change_goal-length py tx details goal_id change s.ledger.goals goals e in
            let after = with_goals s.ledger goals (omega (arith, as_many)) l in
            ground (arith, e, l, after, save_change-IsLimited now _ s after)
      ]

  pub set_tax_settings-IsLimited :
      (now : Datetime) (days : ℤ) (note : String) (s : Store D)
      → IsLimited s.ledger
      → IsLimited (set_tax_settings py tx details now days note s).1.ledger
  unfolding set_tax_settings IsLimited
  set_tax_settings-IsLimited now days note s l =
      limited_if (ltb_ℤ days (pos 1)) _ _ (λ e. l) (λ e. save_change-IsLimited now _ s l)
