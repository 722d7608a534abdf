-- ===== src/Common/Permutations.antt =====
-- Lists with the same items as often, in any order.
use mathlib.Core.Logic.{inl, inr}
use mathlib.Core.Bool.{Bool, not}
use mathlib.Core.List.{List, [], ◌∷◌, ◌++◌, Perm, append-nil}
use mathlib.Core.List.Perm
use avorelo.Common.Tests.{Bool-cases}
use avorelo.Common.Lists.{filter}

module _ {ℓ} {A : Type ℓ} where
  pub Perm-middle : {x : A} (xs ys : List A) → Perm (xs ++ x ∷ ys) (x ∷ (xs ++ ys))
  Perm-middle {x} [] ys = Perm.refl (x ∷ ys)
  Perm-middle {x} (y ∷ xs) ys =
      Perm.trans (Perm.cons y (Perm-middle xs ys)) (Perm.swap x y (xs ++ ys))

  pub Perm-append_comm : (xs ys : List A) → Perm (xs ++ ys) (ys ++ xs)
  Perm-append_comm [] ys = rw (append-nil ys) (Perm.refl ys)
  Perm-append_comm (x ∷ xs) ys =
      Perm.trans (Perm.cons x (Perm-append_comm xs ys)) (Perm.symm (Perm-middle ys xs))

  -- A list is divided by a test.
  pub Perm-filter_not :
      (p : A → Bool) (xs : List A) → Perm (filter p xs ++ filter (λ x. not (p x)) xs) xs
  Perm-filter_not p [] = Perm.refl []
  Perm-filter_not p (x ∷ xs) = elim (Bool-cases (p x)) [
    | inl e ↦ rw e (Perm.cons x (Perm-filter_not p xs))
    | inr e ↦ rw e (
        Perm.trans (Perm-middle (filter p xs) (filter (λ y. not (p y)) xs))
          (Perm.cons x (Perm-filter_not p xs)))
  ]
