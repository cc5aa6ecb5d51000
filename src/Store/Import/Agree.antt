-- ===== src/Store/Import/Agree.antt =====
-- The duplicates that the preview marks are the rows that the import leaves out.
use bitcoin_stack_tracker.Common.{
  ℕ, ◌+◌, ◌≡◌, refl, ap, ◌∙◌, Bool, true, false, none, some, String, List, [], ◌∷◌, if◌then◌else◌,
  texts, ◌||◌, Bool-cases, Option-cases, inl, inr, arith, eq_iff, ◌⊎◌,
}
use bitcoin_stack_tracker.Common.Set.{is_in, is_in-add}
use bitcoin_stack_tracker.Ledger.{Python, Datetime, text, is_text, to_utc}
use bitcoin_stack_tracker.Store.Data.{Texts, Row, Depot}
use bitcoin_stack_tracker.Store.Rows.{
  Fingerprint, fingerprints, normalized_utc_timestamp, validated_ledger_timestamp, utc_instant,
  is_hash, import_ref_hash, transaction_fingerprint,
}
use bitcoin_stack_tracker.Store.Changes.{max_note_length}
use bitcoin_stack_tracker.Store.Import.{
  RawRow, is_importable, import_item, raw_ref, preview_import_item, import_row, Seen, flag_step,
  import_step, flag_loop, import_loop, import_duplicate_flags, seen_of,
}

-- The two loops know the same identities.
Agrees : Seen → Seen → Type 0
Agrees s t =
    (s.legacy_fingerprint_counts ≡ t.legacy_fingerprint_counts)
    × ((f : Fingerprint)
        → (is_in f s.existing_fingerprints || is_in f s.pending_fingerprints)
          ≡ (is_in f t.existing_fingerprints || is_in f t.pending_fingerprints))
    × ((r : String)
        → (is_in r s.existing_ref_hashes || is_in r s.pending_ref_hashes)
          ≡ (is_in r t.existing_ref_hashes || is_in r t.pending_ref_hashes))

Agrees-refl : (s : Seen) → Agrees s s
unfolding Agrees
Agrees-refl s = (refl, (λ f. refl), λ r. refl)

step-same :
    (fp : Fingerprint) (ref : String) (s t : Seen)
    → Agrees s t
    → (flag_step fp ref s).0 ≡ (import_step fp ref t).0
unfolding Agrees flag_step import_step
step-same fp ref s t (l, f, r) = ground (arith, l, f fp, r ref)

step-Agrees :
    (fp : Fingerprint) (ref : String) (s t : Seen)
    → Agrees s t
    → Agrees (flag_step fp ref s).1 (import_step fp ref t).1
unfolding Agrees flag_step import_step
step-Agrees fp ref s t (l, f, r) = (
  ground (arith, l, f fp, r ref),
  (λ g. ground (
    arith,
    l,
    f fp,
    f g,
    r ref,
    fingerprints.same_iff fp g,
    is_in-add fp g s.pending_fingerprints,
    is_in-add fp g t.pending_fingerprints,
  )),
  λ q. ground (
    arith,
    l,
    f fp,
    r ref,
    r q,
    eq_iff ref q,
    is_in-add ref q s.pending_ref_hashes,
    is_in-add ref q t.pending_ref_hashes,
  ),
)

-- A text that is a hash, or empty, is in lower case and has no blanks at its ends.
abbrev pub KeepsHashes : {D : Type 0} → Texts D → Type 0
KeepsHashes tx = (h : String) → (is_text h ≡ false) ⊎ (is_hash h ≡ true) → tx.lower (tx.strip h) ≡ h

-- How many rows the flags mark.
abbrev pub marked : List Bool → ℕ
marked [] = 0
marked (mark ∷ marks) = (if mark then 1 else 0) + marked marks

module _ {D : Type 0} (py : Python D) (tx : Texts D) where
  -- The rows of the import that the flags do not mark.
  unfoldable pub unmarked : Datetime → List Depot → List Bool → List (RawRow D) → List (Row D)
  unfolding import_row
  unmarked now depots [] raws = []
  unmarked now depots (mark ∷ marks) [] = []
  unmarked now depots (mark ∷ marks) (raw ∷ raws) =
      let rest = unmarked now depots marks raws in
      if mark
      then rest
      else elim (import_row py tx now depots raw) [ none ↦ rest | some r ↦ r ∷ rest ]

module _ {D : Type 0} (py : Python D) (tx : Texts D) (plain : KeepsHashes tx) where
  validated-normalized :
      (now : ℕ) (raw : RawRow D) (at : String)
      → validated_ledger_timestamp py tx now (text (tx.strip raw.timestamp)) ≡ some at
      → normalized_utc_timestamp py tx (text (tx.strip raw.timestamp)) ≡ some at
  unfolding validated_ledger_timestamp
  validated-normalized now raw at h =
      elim (Option-cases (normalized_utc_timestamp py tx (text (tx.strip raw.timestamp)))) [
        | inl e ↦ ground (arith, e)
        | inr (n, e) ↦ elim (Option-cases (utc_instant py tx (text n))) [
          | inl u ↦ ground (arith, e, u)
          | inr (i, u) ↦ ground (arith, e, u)
        ]
      ]

  raw_ref-kept :
      (raw : RawRow D)
      → is_importable py tx raw ≡ true
      → (if is_hash (tx.lower (tx.strip (raw_ref py tx raw)))
          then tx.lower (tx.strip (raw_ref py tx raw))
          else "")
        ≡ raw_ref py tx raw
  unfolding is_importable is_text
  raw_ref-kept raw h = elim (Bool-cases (is_text (raw_ref py tx raw))) [
    | inl some_text ↦
        let hash : is_hash (raw_ref py tx raw) ≡ true = ground arith in
        rw (plain (raw_ref py tx raw) (inr hash), hash)
    | inr empty ↦
        let e : raw_ref py tx raw ≡ "" = ground (arith, eq_iff (raw_ref py tx raw) "") in
        ground (arith, plain (raw_ref py tx raw) (inl empty), e)
  ]

  import_row_lem :
      (now : Datetime) (depots : List Depot) (raw : RawRow D) (r : Row D)
      → import_row py tx now depots raw ≡ some r
      → (at : String) × (is_importable py tx raw ≡ true)
        × (validated_ledger_timestamp py tx (to_utc now) (text (tx.strip raw.timestamp)) ≡ some at)
        × (import_item py tx raw raw.new_id at (tx.clip max_note_length (tx.strip raw.note)) ≡ r)
  unfolding import_row
  import_row_lem now depots raw r h =
      elim (Option-cases
        (validated_ledger_timestamp py tx (to_utc now) (text (tx.strip raw.timestamp)))) [
          | inl e ↦ absurd (ground (arith, e))
          | inr (at, e) ↦ (at, ground (arith, e), e, ground (arith, e))
        ]

  import_item-fingerprint :
      (raw : RawRow D) (id at note : String)
      → transaction_fingerprint py tx (import_item py tx raw "" at "")
        ≡ transaction_fingerprint py tx (import_item py tx raw id at note)
  unfolding transaction_fingerprint import_item
  import_item-fingerprint raw id at note = refl

  import_item-ref :
      (raw : RawRow D) (id at note : String)
      → is_importable py tx raw ≡ true
      → import_ref_hash py tx (import_item py tx raw "" at "")
        ≡ (import_item py tx raw id at note).import_ref_hash
  unfolding import_ref_hash import_item
  import_item-ref raw id at note h = raw_ref-kept raw h

  -- A row that the import accepts has a preview of the same identity.
  import_row-preview :
      (now : Datetime) (depots : List Depot) (raw : RawRow D) (r : Row D)
      → import_row py tx now depots raw ≡ some r
      → (p : Row D) × (preview_import_item py tx raw ≡ some p)
        × (transaction_fingerprint py tx p ≡ transaction_fingerprint py tx r)
        × (import_ref_hash py tx p ≡ r.import_ref_hash)
  unfolding preview_import_item
  import_row-preview now depots raw r h =
      let (at, fine, valid, made) = import_row_lem now depots raw r h in
      let note = tx.clip max_note_length (tx.strip raw.note) in
      (
        import_item py tx raw "" at "",
        rw (fine, validated-normalized (to_utc now) raw at valid) refl,
        import_item-fingerprint raw raw.new_id at note ∙ ap (transaction_fingerprint py tx) made,
        import_item-ref raw raw.new_id at note fine ∙ ap (λ x. x.import_ref_hash) made,
      )

  nothing :
      (now : Datetime) (depots : List Depot) (s t : Seen) (rows : List (Row D)) (duplicates : ℕ)
      → import_loop py tx now depots t [] ≡ some (rows, duplicates)
      → (rows ≡ unmarked py tx now depots (flag_loop py tx s []) [])
        × (duplicates ≡ marked (flag_loop py tx s []))
  unfolding import_loop flag_loop unmarked
  nothing now depots s t rows duplicates h = (cc, cc)

  refused :
      (now : Datetime) (depots : List Depot) (t : Seen) (raw : RawRow D) (raws : List (RawRow D))
      (rows : List (Row D)) (duplicates : ℕ)
      → import_row py tx now depots raw ≡ none
      → import_loop py tx now depots t (raw ∷ raws) ≡ some (rows, duplicates)
      → ⊥
  unfolding import_loop
  refused now depots t raw raws rows duplicates e h = ground (arith, e)

  -- One row more, that both loops take for the same.
  joined :
      (now : Datetime) (depots : List Depot) (raw : RawRow D) (raws : List (RawRow D)) (r : Row D)
      (rows rest : List (Row D)) (duplicates n : ℕ) (mark duplicate : Bool) (marks : List Bool)
      → import_row py tx now depots raw ≡ some r
      → mark ≡ duplicate
      → rows ≡ (if duplicate then rest else r ∷ rest)
      → duplicates ≡ (if duplicate then 1 else 0) + n
      → rest ≡ unmarked py tx now depots marks raws
      → n ≡ marked marks
      → (rows ≡ unmarked py tx now depots (mark ∷ marks) (raw ∷ raws))
        × (duplicates ≡ marked (mark ∷ marks))
  unfolding unmarked
  joined now depots raw raws r rows rest duplicates n mark duplicate marks e same er ed ih jh =
      (ground (arith, e, same, er, ih), ground (arith, same, ed, jh))

  flag_loop-cons :
      (s : Seen) (raw : RawRow D) (raws : List (RawRow D)) (p : Row D)
      → preview_import_item py tx raw ≡ some p
      → flag_loop py tx s (raw ∷ raws)
        ≡ (flag_step (transaction_fingerprint py tx p) (import_ref_hash py tx p) s).0
          ∷ flag_loop py tx
              (flag_step (transaction_fingerprint py tx p) (import_ref_hash py tx p) s).1
              raws
  unfolding flag_loop
  flag_loop-cons s raw raws p h = ground (arith, h)

  import_loop-cons :
      (now : Datetime) (depots : List Depot) (t : Seen) (raw : RawRow D) (raws : List (RawRow D))
      (r : Row D) (rows : List (Row D)) (duplicates : ℕ)
      → import_row py tx now depots raw ≡ some r
      → import_loop py tx now depots t (raw ∷ raws) ≡ some (rows, duplicates)
      → let (duplicate, u) = import_step (transaction_fingerprint py tx r) r.import_ref_hash t in
        (rest : List (Row D)) × (n : ℕ) × (import_loop py tx now depots u raws ≡ some (rest, n))
        × (rows ≡ (if duplicate then rest else r ∷ rest))
        × (duplicates ≡ (if duplicate then 1 else 0) + n)
  unfolding import_loop
  import_loop-cons now depots t raw raws r rows duplicates e h =
      let u = (import_step (transaction_fingerprint py tx r) r.import_ref_hash t).1 in
      elim (Option-cases (import_loop py tx now depots u raws)) [
        | inl l ↦ absurd (ground (arith, e, l))
        | inr ((rest, n), l) ↦ (rest, n, l, ground (arith, e, l), ground (arith, e, l))
      ]

  import_loop-flags :
      (now : Datetime) (depots : List Depot) (raws : List (RawRow D)) (s t : Seen)
      (rows : List (Row D)) (duplicates : ℕ)
      → Agrees s t
      → import_loop py tx now depots t raws ≡ some (rows, duplicates)
      → (rows ≡ unmarked py tx now depots (flag_loop py tx s raws) raws)
        × (duplicates ≡ marked (flag_loop py tx s raws))
  import_loop-flags now depots [] s t rows duplicates a h = nothing now depots s t rows duplicates h
  import_loop-flags now depots (raw ∷ raws) s t rows duplicates a h =
      elim (Option-cases (import_row py tx now depots raw)) [
        | inl e ↦ absurd (refused now depots t raw raws rows duplicates e h)
        | inr (r, e) ↦
            let (p, shown, fp, ref) = import_row-preview now depots raw r e in
            let (rest, n, l, er, ed) =
              import_loop-cons now depots t raw raws r rows duplicates e h in
            let f = transaction_fingerprint py tx r in
            let same = step-same f r.import_ref_hash s t a in
            let next = (flag_step f r.import_ref_hash s).1 in
            let (ih, jh) =
              import_loop-flags now depots raws next (import_step f r.import_ref_hash t).1 rest n
                (step-Agrees f r.import_ref_hash s t a) l in
            rw (flag_loop-cons s raw raws p shown, fp, ref)
              (joined now depots raw raws r rows rest duplicates n
                (flag_step f r.import_ref_hash s).0 (import_step f r.import_ref_hash t).0
                (flag_loop py tx next raws) e same er ed ih jh)
      ]

-- Where the import accepts all rows, it adds those that the preview's flags leave unmarked, in
-- their order, and counts as duplicates those that the flags mark.
pub import_loop-duplicate_flags :
    {D : Type 0} (py : Python D) (tx : Texts D) (now : Datetime) (depots : List Depot)
    (existing : List (Row D)) (raws : List (RawRow D)) (rows : List (Row D)) (duplicates : ℕ)
    → KeepsHashes tx
    → import_loop py tx now depots (seen_of py tx existing) raws ≡ some (rows, duplicates)
    → let flags = import_duplicate_flags py tx existing raws in
      (rows ≡ unmarked py tx now depots flags raws) × (duplicates ≡ marked flags)
unfolding import_duplicate_flags
import_loop-duplicate_flags py tx now depots existing raws rows duplicates plain h =
    import_loop-flags py tx plain now depots raws (seen_of py tx existing) (seen_of py tx existing)
      rows duplicates (Agrees-refl (seen_of py tx existing)) h
