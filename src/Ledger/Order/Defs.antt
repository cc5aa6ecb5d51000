-- ===== src/Ledger/Order/Defs.antt =====
-- The sort key of a row, Python's order of such tuples, and the stable sort.
use Prim.Native.Char.{code}
use Prim.Native.String.{String}
use bitcoin_stack_tracker.Common.{ℕ, Bool, true, false, List, [], ◌∷◌, ltb, if◌then◌else◌, or_else}
use bitcoin_stack_tracker.Ledger.Defs.{
  Entry, Instant, Python, is_outgoing, parse_timestamp, max_instant,
}

-- The code points of a text, by which Python compares texts.
unfoldable pub codes : String → List ℕ
codes String.[] = []
codes (String.◌∷◌ c s) = code c ∷ codes s

-- `a <= b` on texts.
unfoldable pub codes_le : List ℕ → List ℕ → Bool
codes_le [] ys = true
codes_le (x ∷ xs) [] = false
codes_le (x ∷ xs) (y ∷ ys) = if ltb x y then true else if ltb y x then false else codes_le xs ys

-- The tuple that `sort_key` returns.
pub record SortKey : Type 0 where
  pub instant : Instant
  pub side : ℕ
  pub id : List ℕ

-- `a <= b` on such tuples.
unfoldable pub key_le : SortKey → SortKey → Bool
key_le a b =
    if ltb a.instant b.instant
    then true
    else if ltb b.instant a.instant
    then false
    else if ltb a.side b.side
    then true
    else if ltb b.side a.side
    then false
    else codes_le a.id b.id

-- A stable sort by `le`: `x` stood before every member of the list it is put into.
module _ {A : Type 0} (le : A → A → Bool) where
  unfoldable pub put : A → List A → List A
  put x [] = x ∷ []
  put x (y ∷ ys) = if le x y then x ∷ (y ∷ ys) else y ∷ put x ys

  unfoldable pub sorted : List A → List A
  unfolding put
  sorted [] = []
  sorted (x ∷ xs) = put x (sorted xs)

module _ {D : Type 0} (py : Python D) where
  -- A row without a readable timestamp is sorted last.
  unfoldable pub sort_key : Entry D → SortKey
  unfolding parse_timestamp is_outgoing codes
  sort_key e = record {
    instant = or_else (parse_timestamp py e.timestamp) max_instant;
    side = if is_outgoing e.kind then 1 else 0;
    id = codes e.id;
  }

  unfoldable pub entry_le : Entry D → Entry D → Bool
  unfolding sort_key key_le codes_le
  entry_le a b = key_le (sort_key a) (sort_key b)

  unfoldable pub sorted_entries : List (Entry D) → List (Entry D)
  unfolding sorted entry_le
  sorted_entries = sorted entry_le
