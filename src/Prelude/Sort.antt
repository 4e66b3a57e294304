-- ===== src/Prelude/Sort.antt =====
-- The package sort. `sort.Slice` promises an order and leaves open which of two equal elements comes
-- first; this is the insertion sort, whose result is one that it may return (and the one that
-- `sort.SliceStable` returns).
pub mod Ordered
use Prim.Native.Nat.{suc}
use mathlib.Core.Path.{◌≡◌, refl, ap, ◌∙◌}
use mathlib.Core.Bool.{Bool}
use mathlib.Core.List.{List, [], ◌∷◌}
use mathlib.Core.Logic.{◌⊎◌, inl, inr}
use attndb.Prelude.Tests.{if◌then◌else◌, Bool-cases}
use attndb.Prelude.Lists.{length}
use attndb.Prelude.Quantifiers.{All, Any}

module _ {ℓ} {A : Type ℓ} (less : A → A → Bool) where
  -- `x` came before the elements of the list, so it stays before its equals.
  unfoldable pub insert_by : A → List A → List A
  insert_by x [] = x ∷ []
  insert_by x (y ∷ ys) = let later = insert_by x ys in if less y x then y ∷ later else x ∷ y ∷ ys

  unfoldable pub sort_by : List A → List A
  unfolding insert_by
  sort_by [] = []
  sort_by (x ∷ xs) = insert_by x (sort_by xs)

  -- What holds of all the elements holds of all of the sorted list.
  pub insert_by-All :
      (P : A → Type 0) (x : A) (xs : List A) → P x → All P xs → All P (insert_by x xs)
  unfolding insert_by
  insert_by-All P x [] p h = (p, tt)
  insert_by-All P x (y ∷ ys) p h = elim (Bool-cases (less y x)) [
    | inl e ↦ rw e (h.0, insert_by-All P x ys p h.1)
    | inr e ↦ rw e (p, h)
  ]

  pub sort_by-All : (P : A → Type 0) (xs : List A) → All P xs → All P (sort_by xs)
  unfolding sort_by
  sort_by-All P [] h = tt
  sort_by-All P (x ∷ xs) h = insert_by-All P x (sort_by xs) h.0 (sort_by-All P xs h.1)

  -- An element of a list is one of the sorted list.
  pub insert_by-Any :
      (P : A → Type 0) (x : A) (xs : List A) → P x ⊎ Any P xs → Any P (insert_by x xs)
  unfolding insert_by
  insert_by-Any P x [] h = h
  insert_by-Any P x (y ∷ ys) h = elim (Bool-cases (less y x)) [
    | inl e ↦ rw e (elim h [
      | inl p ↦ inr (insert_by-Any P x ys (inl p))
      | inr (inl q) ↦ inl q
      | inr (inr qs) ↦ inr (insert_by-Any P x ys (inr qs))
    ])
    | inr e ↦ rw e h
  ]

  pub sort_by-Any : (P : A → Type 0) (xs : List A) → Any P xs → Any P (sort_by xs)
  unfolding sort_by
  sort_by-Any P [] h = h
  sort_by-Any P (x ∷ xs) (inl p) = insert_by-Any P x (sort_by xs) (inl p)
  sort_by-Any P (x ∷ xs) (inr ps) = insert_by-Any P x (sort_by xs) (inr (sort_by-Any P xs ps))

  length-insert_by : (x : A) (xs : List A) → length (insert_by x xs) ≡ suc (length xs)
  unfolding insert_by
  length-insert_by x [] = refl
  length-insert_by x (y ∷ ys) = elim (Bool-cases (less y x)) [
    | inl e ↦ rw e (ap suc (length-insert_by x ys))
    | inr e ↦ rw e refl
  ]

  pub length-sort_by : (xs : List A) → length (sort_by xs) ≡ length xs
  unfolding sort_by
  length-sort_by [] = refl
  length-sort_by (x ∷ xs) = length-insert_by x (sort_by xs) ∙ ap suc (length-sort_by xs)
