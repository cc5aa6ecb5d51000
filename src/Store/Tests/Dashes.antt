-- ===== src/Store/Tests/Dashes.antt =====
-- Texts that are numbered by dashes before them.
use Prim.Native.String.{◌∷◌}
use bitcoin_stack_tracker.Common.{ℕ, zero, suc, ◌+◌, ◌≡◌, refl, ap, String, arith}
use bitcoin_stack_tracker.Store.Rows.{text_length}
use bitcoin_stack_tracker.Store.Depots.Ids.{NumbersApart}

-- The text after a dash more than the number.
unfoldable pub dashed : String → ℕ → String
dashed base zero = "-" ∷ base
dashed base (suc n) = "-" ∷ dashed base n

text_length-dashed :
    (base : String) (n : ℕ) → text_length (dashed base n) ≡ text_length base + (n + 1)
unfolding text_length dashed
text_length-dashed base zero = refl
text_length-dashed base (suc n) = omega (arith, text_length-dashed base n)

pub dashed-NumbersApart : NumbersApart dashed
dashed-NumbersApart = (
  (λ base i j e.
      omega (arith, text_length-dashed base i, text_length-dashed base j, ap text_length e)),
  λ base i e. omega (arith, text_length-dashed base i, ap text_length e),
)
