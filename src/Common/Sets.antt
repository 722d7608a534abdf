-- ===== src/Common/Sets.antt =====
-- `Array.from(new Set(xs))`: the first occurrence of each value, in order.
use mathlib.Core.Path.{◌≡◌, refl}
use mathlib.Core.Bool.{false, ◌||◌}
use mathlib.Core.List.{List, [], ◌∷◌, ◌++◌}
use native.Mathlib.Omega.{arith}
use avorelo.Common.Tests.{if◌then◌else◌}
use avorelo.Common.Equality.{Comparable, ◌==◌, contains, contains-append}

module _ {ℓ} {A : Type ℓ} ⦃e : Comparable A⦄ where
  -- The insertion of a value into a set, at its end.
  abbrev pub add : List A → A → List A
  add seen x = if contains seen x then seen else seen ++ x ∷ []

  abbrev pub dedup_from : List A → List A → List A
  dedup_from seen [] = seen
  dedup_from seen (x ∷ xs) = dedup_from (add seen x) xs

  abbrev pub dedup : List A → List A
  dedup xs = dedup_from [] xs

  -- No value stands twice.
  abbrev pub IsDistinct : List A → Type 0
  IsDistinct [] = Unit
  IsDistinct (x ∷ xs) = (contains xs x ≡ false) × IsDistinct xs

  pub contains-add : (seen : List A) (x a : A) → contains (add seen x) a ≡ contains seen a || x == a
  contains-add seen x a = ground (arith, contains-append seen (x ∷ []) a, e.equal_iff x a)

  pub contains-dedup_from :
      (seen xs : List A) (a : A)
      → contains (dedup_from seen xs) a ≡ contains seen a || contains xs a
  contains-dedup_from seen [] a = ground arith
  contains-dedup_from seen (x ∷ xs) a =
      ground (arith, contains-dedup_from (add seen x) xs a, contains-add seen x a)

  pub contains-dedup : (xs : List A) (a : A) → contains (dedup xs) a ≡ contains xs a
  contains-dedup xs a = contains-dedup_from [] xs a

  snoc-IsDistinct :
      (xs : List A) (x : A) → IsDistinct xs → contains xs x ≡ false → IsDistinct (xs ++ x ∷ [])
  snoc-IsDistinct [] x d h = (refl, tt)
  snoc-IsDistinct (y ∷ xs) x d h = (
    ground (arith, contains-append xs (x ∷ []) y, e.equal_iff x y, e.equal_iff y x),
    snoc-IsDistinct xs x d.1 (ground arith),
  )

  pub add-IsDistinct : (xs : List A) (x : A) → IsDistinct xs → IsDistinct (add xs x)
  add-IsDistinct xs x d = ground (arith, snoc-IsDistinct xs x d)

  pub dedup_from-IsDistinct : (seen xs : List A) → IsDistinct seen → IsDistinct (dedup_from seen xs)
  dedup_from-IsDistinct seen [] d = d
  dedup_from-IsDistinct seen (x ∷ xs) d =
      dedup_from-IsDistinct (add seen x) xs (add-IsDistinct seen x d)

  pub dedup-IsDistinct : (xs : List A) → IsDistinct (dedup xs)
  dedup-IsDistinct xs = dedup_from-IsDistinct [] xs tt
