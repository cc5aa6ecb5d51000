-- ===== src/Ledger/Slug.antt =====
-- `slugify` of custom_components/bitcoin_stack_tracker/models.py.
use Prim.Native.Char.{Char, code, nul}
use Prim.Native.String.{[], ◌∷◌}
use bitcoin_stack_tracker.Common.{
  ℕ, zero, suc, ◌-◌, Bool, true, false, String, if◌then◌else◌, leb, nat_eq, ◌&&◌, ◌||◌,
}
use bitcoin_stack_tracker.Ledger.Defs.{is_text}

char_in : String → ℕ → Char
char_in [] n = nul
char_in (c ∷ s) zero = c
char_in (c ∷ s) (suc n) = char_in s n

unfoldable pub is_alnum : ℕ → Bool
is_alnum c = leb b'0' c && leb c b'9' || (leb b'A' c && leb c b'Z' || leb b'a' c && leb c b'z')

-- A letter in lower case, a digit as it is, and `_` for anything else.
unfoldable pub slug_char : Char → Char
unfolding is_alnum char_in
slug_char c =
    if leb b'A' (code c) && leb (code c) b'Z'
    then char_in "abcdefghijklmnopqrstuvwxyz" (code c - b'A')
    else if is_alnum (code c)
    then c
    else char_in "_" 0

-- The text, with single underscores in place of each run of other characters, and none at its
-- ends: `"_".join(part for part in normalized.split("_") if part)`. The flags tell whether a part
-- has been written, and whether an underscore is due before the next character.
unfoldable pub slug_parts : Bool → Bool → String → String
unfolding slug_char
slug_parts written due [] = []
slug_parts written due (c ∷ s) =
    let d = slug_char c in
    let bar = slug_parts written written s in
    let plain = d ∷ slug_parts true false s in
    if nat_eq (code d) b'_' then bar else if due then char_in "_" 0 ∷ plain else plain

-- `s[:n]`
unfoldable pub clip_text : ℕ → String → String
clip_text zero s = []
clip_text (suc n) [] = []
clip_text (suc n) (c ∷ s) = c ∷ clip_text n s

-- `ascii` is the encoding of the NFKD form.
unfoldable pub slugify : (String → String) → String → String → String
unfolding slug_parts clip_text is_text
slugify ascii value fallback =
    let clipped = clip_text 64 (slug_parts false false (ascii value)) in
    if is_text clipped then clipped else fallback
