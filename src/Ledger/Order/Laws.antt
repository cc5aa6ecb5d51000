-- ===== src/Ledger/Order/Laws.antt =====
-- The sort keeps the rows, orders them, and keeps the order of rows with one key.
use mathlib.Core.List.{Perm}
use mathlib.Core.List.Perm
use bitcoin_stack_tracker.Common.{
  ◌-◌, ◌*◌, ◌==◌, texts, Option, none, some, or_else, Option-cases, ℕ, ◌+◌, ◌≤◌, ◌≡◌, refl, ap, ◌∙◌,
  Bool, true, false, List, [], ◌∷◌, if◌then◌else◌, inl, inr, Bool-cases, arith, All, sum_if,
}
use bitcoin_stack_tracker.Ledger.Defs.{
  Entry, Python, is_outgoing, Kind, purchase, income, stack, sale, expense, network_fee, other,
  TimeValue, moment, text, missing, Datetime, east, west, day, max_instant, parse_timestamp, to_utc,
  replace_z, is_text,
}
use bitcoin_stack_tracker.Ledger.Order.Defs.{
  codes, codes_le, SortKey, key_le, put, sorted, sort_key, entry_le, sorted_entries,
}

codes_le-total : (a b : List ℕ) → codes_le a b ≡ false → codes_le b a ≡ true
unfolding codes_le
codes_le-total [] b h = ground arith
codes_le-total (x ∷ a) [] h = refl
codes_le-total (x ∷ a) (y ∷ b) h = ground (arith, codes_le-total a b)

codes_le_trans : (a b c : List ℕ) → codes_le a b ≡ true → codes_le b c ≡ true → codes_le a c ≡ true
unfolding codes_le
codes_le_trans [] b c h k = refl
codes_le_trans (x ∷ a) [] c h k = ground arith
codes_le_trans (x ∷ a) (y ∷ b) [] h k = ground arith
codes_le_trans (x ∷ a) (y ∷ b) (z ∷ c) h k = ground (arith, codes_le_trans a b c)

pub key_le-total : (a b : SortKey) → key_le a b ≡ false → key_le b a ≡ true
unfolding key_le
key_le-total a b h = ground (arith, codes_le-total a.id b.id)

pub key_le_trans : (a b c : SortKey) → key_le a b ≡ true → key_le b c ≡ true → key_le a c ≡ true
unfolding key_le
key_le_trans a b c h k = ground (arith, codes_le_trans a.id b.id c.id)

-- Each member stands in the order `le` to every later one.
abbrev pub IsSorted : {A : Type 0} → (A → A → Bool) → List A → Type 0
IsSorted le [] = Unit
IsSorted le (x ∷ xs) = All (λ y. le x y ≡ true) xs × IsSorted le xs

module _ {A : Type 0} (le : A → A → Bool) where
  put-perm : (x : A) (xs : List A) → Perm (put le x xs) (x ∷ xs)
  unfolding put
  put-perm x [] = Perm.refl (x ∷ [])
  put-perm x (y ∷ ys) = elim (Bool-cases (le x y)) [
    | inl e ↦ rw e (Perm.refl (x ∷ y ∷ ys))
    | inr e ↦ rw e (Perm.trans (Perm.cons y (put-perm x ys)) (Perm.swap x y ys))
  ]

  sorted-perm : (xs : List A) → Perm (sorted le xs) xs
  unfolding sorted
  sorted-perm [] = Perm.refl []
  sorted-perm (x ∷ xs) = Perm.trans (put-perm x (sorted le xs)) (Perm.cons x (sorted-perm xs))

  put-sum_if :
      (p : A → Bool) (f : A → ℕ) (x : A) (xs : List A)
      → sum_if p f (put le x xs) ≡ (if p x then f x else 0) + sum_if p f xs
  unfolding put
  put-sum_if p f x [] = refl
  put-sum_if p f x (y ∷ ys) = ground (arith, put-sum_if p f x ys)

  pub sorted-sum_if :
      (p : A → Bool) (f : A → ℕ) (xs : List A) → sum_if p f (sorted le xs) ≡ sum_if p f xs
  unfolding sorted
  sorted-sum_if p f [] = refl
  sorted-sum_if p f (x ∷ xs) =
      put-sum_if p f x (sorted le xs)
      ∙ ap (λ n. (if p x then f x else 0) + n) (sorted-sum_if p f xs)

  put-All : (P : A → Type 0) (x : A) (xs : List A) → P x → All P xs → All P (put le x xs)
  unfolding put
  put-All P x [] h a = (h, tt)
  put-All P x (y ∷ ys) h a = elim (Bool-cases (le x y)) [
    | inl e ↦ rw e (h, a)
    | inr e ↦ rw e (a.0, put-All P x ys h a.1)
  ]

  module _ (total : (a b : A) → le a b ≡ false → le b a ≡ true)
      (trans : (a b c : A) → le a b ≡ true → le b c ≡ true → le a c ≡ true) where
    All-below :
        (x y : A) (ys : List A)
        → le x y ≡ true
        → All (λ z. le y z ≡ true) ys
        → All (λ z. le x z ≡ true) ys
    All-below x y [] h a = tt
    All-below x y (z ∷ ys) h a = (trans x y z h a.0, All-below x y ys h a.1)

    put-IsSorted : (x : A) (xs : List A) → IsSorted le xs → IsSorted le (put le x xs)
    unfolding put
    put-IsSorted x [] s = (tt, tt)
    put-IsSorted x (y ∷ ys) s = elim (Bool-cases (le x y)) [
      | inl e ↦ rw e ((e, All-below x y ys e s.0), s)
      | inr e ↦ rw e (put-All (λ z. le y z ≡ true) x ys (total x y e) s.0, put-IsSorted x ys s.1)
    ]

    pub sorted-IsSorted : (xs : List A) → IsSorted le (sorted le xs)
    unfolding sorted
    sorted-IsSorted [] = tt
    sorted-IsSorted (x ∷ xs) = put-IsSorted x (sorted le xs) (sorted-IsSorted xs)

-- The moment of a row, in microseconds since a day before the year 1 at UTC: of a datetime its wall
-- clock, less an offset to the east and plus one to the west; of a text that of the datetime that it
-- writes. A row without a readable moment has the last one of the year 9999.
abbrev pub utc_micros : Datetime → ℕ
utc_micros d = elim d.offset [
  | none ↦ d.wall + day
  | some (east m) ↦ d.wall + day - m
  | some (west m) ↦ d.wall + day + m
]

abbrev pub last_moment : ℕ
last_moment = 3_652_060 * day - 1

abbrev pub micros_or_last : Option Datetime → ℕ
micros_or_last none = last_moment
micros_or_last (some d) = utc_micros d

abbrev pub moment_of : {D : Type 0} → Python D → TimeValue → ℕ
moment_of py (moment d) = utc_micros d
moment_of py (text s) =
    if s == "" then last_moment else micros_or_last (py.fromisoformat (replace_z s))
moment_of py missing = last_moment

-- Sales, expenses and network fees take BTC away.
abbrev pub takes_btc : Kind → Bool
takes_btc purchase = false
takes_btc income = false
takes_btc stack = false
takes_btc sale = true
takes_btc expense = true
takes_btc network_fee = true
takes_btc other = false

-- `a` may stand before `b`: not at a later moment; at one moment not a row that takes BTC before
-- one that does not, and of two rows of one kind in this not the one with the greater id.
abbrev pub Before : {D : Type 0} → Python D → Entry D → Entry D → Type 0
Before py a b =
    (moment_of py a.timestamp ≤ moment_of py b.timestamp)
    × (moment_of py a.timestamp ≡ moment_of py b.timestamp
        → takes_btc a.kind ≡ true
        → takes_btc b.kind ≡ true)
    × (moment_of py a.timestamp ≡ moment_of py b.timestamp
        → takes_btc a.kind ≡ takes_btc b.kind
        → codes_le (codes a.id) (codes b.id) ≡ true)

is_outgoing-takes_btc : (k : Kind) → is_outgoing k ≡ takes_btc k
unfolding is_outgoing
is_outgoing-takes_btc purchase = refl
is_outgoing-takes_btc income = refl
is_outgoing-takes_btc stack = refl
is_outgoing-takes_btc sale = refl
is_outgoing-takes_btc expense = refl
is_outgoing-takes_btc network_fee = refl
is_outgoing-takes_btc other = refl

parse_timestamp-moment_of :
    {D : Type 0} (py : Python D) (value : TimeValue)
    → or_else (parse_timestamp py value) max_instant ≡ moment_of py value
unfolding parse_timestamp to_utc is_text
parse_timestamp-moment_of py (moment d) = refl
parse_timestamp-moment_of py missing = refl
parse_timestamp-moment_of py (text s) = elim (Bool-cases (s == "")) [
  | inl e ↦ rw e refl
  | inr e ↦ elim (Option-cases (py.fromisoformat (replace_z s))) [
    | inl f ↦ rw (e, f) refl
    | inr (d, f) ↦ rw (e, f) refl
  ]
]

-- Each row may stand before every later one.
abbrev pub IsChronological : {D : Type 0} → Python D → List (Entry D) → Type 0
IsChronological py [] = Unit
IsChronological py (x ∷ xs) = All (λ y. Before py x y) xs × IsChronological py xs

module _ {D : Type 0} (py : Python D) where
  entry_le-Before : (a b : Entry D) → entry_le py a b ≡ true → Before py a b
  unfolding entry_le sort_key key_le
  entry_le-Before a b h =
      let p = parse_timestamp-moment_of py a.timestamp in
      let q = parse_timestamp-moment_of py b.timestamp in
      let o = is_outgoing-takes_btc a.kind in
      let r = is_outgoing-takes_btc b.kind in
      (
        ground (arith, h, p, q),
        (λ same out. ground (arith, h, p, q, o, r, same, out)),
        λ same out. ground (arith, h, p, q, o, r, same, out),
      )

  entry_le-Before-All :
      (a : Entry D) (xs : List (Entry D))
      → All (λ y. entry_le py a y ≡ true) xs
      → All (λ y. Before py a y) xs
  entry_le-Before-All a [] h = tt
  entry_le-Before-All a (x ∷ xs) h = (entry_le-Before a x h.0, entry_le-Before-All a xs h.1)

  IsSorted-IsChronological :
      (xs : List (Entry D)) → IsSorted (entry_le py) xs → IsChronological py xs
  IsSorted-IsChronological [] h = tt
  IsSorted-IsChronological (x ∷ xs) h =
      (entry_le-Before-All x xs h.0, IsSorted-IsChronological xs h.1)

  entry_le-total : (a b : Entry D) → entry_le py a b ≡ false → entry_le py b a ≡ true
  unfolding entry_le
  entry_le-total a b = key_le-total (sort_key py a) (sort_key py b)

  entry_le_trans :
      (a b c : Entry D) → entry_le py a b ≡ true → entry_le py b c ≡ true → entry_le py a c ≡ true
  unfolding entry_le
  entry_le_trans a b c = key_le_trans (sort_key py a) (sort_key py b) (sort_key py c)

-- The sorted ledger has the rows of the ledger, each as often, in the order of their moments: at
-- one moment the rows that take BTC away after all others, and within these groups by their ids.
pub sorted_entries-IsChronological :
    {D : Type 0} (py : Python D) (entries : List (Entry D))
    → Perm (sorted_entries py entries) entries × IsChronological py (sorted_entries py entries)
unfolding sorted_entries
sorted_entries-IsChronological py entries = (
  sorted-perm (entry_le py) entries,
  IsSorted-IsChronological py (sorted (entry_le py) entries)
      (sorted-IsSorted (entry_le py) (entry_le-total py) (entry_le_trans py) entries),
)

pub sorted_entries-sum_if :
    {D : Type 0} (py : Python D) (p : Entry D → Bool) (f : Entry D → ℕ) (entries : List (Entry D))
    → sum_if p f (sorted_entries py entries) ≡ sum_if p f entries
unfolding sorted_entries
sorted_entries-sum_if py p f entries = sorted-sum_if (entry_le py) p f entries
