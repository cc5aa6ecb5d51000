-- ===== src/Common/Set.antt =====
-- A Python set as a list, and the dict operations that remove keys.
use mathlib.Core.Path.{◌≡◌, refl}
use mathlib.Core.Bool.{Bool, false, ◌&&◌, ◌||◌, not}
use mathlib.Core.Option.{none}
use mathlib.Core.List.{List, [], ◌∷◌}
use native.Mathlib.Omega.{arith}
use bitcoin_stack_tracker.Common.Tests.{Comparable, ◌==◌, if◌then◌else◌}
use bitcoin_stack_tracker.Common.Lists.{keep}
use bitcoin_stack_tracker.Common.Dict.{Dict, lookup}

module _ {ℓ} {A : Type ℓ} ⦃e : Comparable A⦄ where
  -- `x in xs`
  abbrev pub is_in : A → List A → Bool
  is_in x [] = false
  is_in x (y ∷ ys) = y == x || is_in x ys

  -- `xs.add(x)`
  abbrev pub add : A → List A → List A
  add x xs = if is_in x xs then xs else x ∷ xs

  -- `xs.discard(x)`
  abbrev pub discard : A → List A → List A
  discard x xs = keep (λ y. not (y == x)) xs

  -- `set(xs)`
  abbrev pub as_set : List A → List A
  as_set [] = []
  as_set (x ∷ xs) = add x (as_set xs)

  pub is_in-add : (x y : A) (xs : List A) → is_in y (add x xs) ≡ (x == y || is_in y xs)
  is_in-add x y xs = ground (arith, e.same_iff x y)

  pub is_in-keep : (p : A → Bool) (y : A) (xs : List A) → is_in y (keep p xs) ≡ (p y && is_in y xs)
  is_in-keep p y [] = ground arith
  is_in-keep p y (x ∷ xs) = ground (arith, e.same_iff x y, is_in-keep p y xs)

  pub is_in-as_set : (y : A) (xs : List A) → is_in y (as_set xs) ≡ is_in y xs
  is_in-as_set y [] = refl
  is_in-as_set y (x ∷ xs) = ground (arith, is_in-add x y (as_set xs), is_in-as_set y xs)

module _ {ℓ} {K V : Type ℓ} ⦃e : Comparable K⦄ where
  -- `{k: v for k, v in d.items() if p(k)}`
  abbrev pub keep_keys : (K → Bool) → Dict K V → Dict K V
  keep_keys p d = keep (λ kv. p kv.0) d

  -- `d.pop(k, None)`
  abbrev pub pop : K → Dict K V → Dict K V
  pop k d = keep_keys (λ j. not (j == k)) d

  pub lookup-keep_keys :
      (p : K → Bool) (k : K) (d : Dict K V)
      → lookup k (keep_keys p d) ≡ (if p k then lookup k d else none)
  lookup-keep_keys p k [] = ground arith
  lookup-keep_keys p k ((j, v) ∷ d) = ground (arith, e.same_iff j k, lookup-keep_keys p k d)
