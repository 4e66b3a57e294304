-- ===== src/Prelude/Sort/Ordered.antt =====
-- The insertion sort puts a list in order, if on its elements the test is asymmetric and its
-- negation is transitive.
use mathlib.Core.Path.{◌≡◌, subst, ◌∙◌}
use mathlib.Core.Bool.{Bool, true, false}
use mathlib.Core.List.{List, [], ◌∷◌, map}
use mathlib.Core.Logic.{◌⊎◌, inl, inr}
use attndb.Prelude.Tests.{Bool-cases}
use attndb.Prelude.Quantifiers.{All, Any, take-All, map-All, All-map}
use attndb.Prelude.Lists.{take}
use Prim.Native.Nat.{ℕ, zero, suc}
use attndb.Prelude.Sort.{insert_by, insert_by-All, sort_by, sort_by-All}

module _ {ℓ} {A : Type ℓ} (less : A → A → Bool) where
  -- No element comes before an earlier one.
  abbrev pub Ordered : List A → Type 0
  Ordered [] = Unit
  Ordered (x ∷ xs) = All (λ y. less y x ≡ false) xs × Ordered xs

  pub take-Ordered : (n : ℕ) (xs : List A) → Ordered xs → Ordered (take n xs)
  take-Ordered zero xs h = tt
  take-Ordered (suc n) [] h = tt
  take-Ordered (suc n) (x ∷ xs) (h, hs) =
      (take-All (λ y. less y x ≡ false) n xs h, take-Ordered n xs hs)

  module _ (P : A → Type 0) (asym : (x y : A) → P x → P y → less x y ≡ true → less y x ≡ false)
      (weak : (x y z : A)
        → P x
        → P y
        → P z
        → less x y ≡ false
        → less y z ≡ false
        → less x z ≡ false) where
    before_all :
        (x y : A) (zs : List A)
        → P x
        → P y
        → All P zs
        → less y x ≡ false
        → All (λ z. less z y ≡ false) zs
        → All (λ z. less z x ≡ false) zs
    before_all x y [] px py _ e _ = tt
    before_all x y (z ∷ zs) px py (pz, pzs) e (h, hs) =
        (weak z y x pz py px h e, before_all x y zs px py pzs e hs)

    insert_by-Ordered :
        (x : A) (xs : List A) → P x → All P xs → Ordered xs → Ordered (insert_by less x xs)
    unfolding insert_by
    insert_by-Ordered x [] px _ _ = (tt, tt)
    insert_by-Ordered x (y ∷ ys) px (py, pys) (h, hs) = elim (Bool-cases (less y x)) [
      | inl e ↦ rw e (
        insert_by-All less (λ z. less z y ≡ false) x ys (asym y x py px e) h,
        insert_by-Ordered x ys px pys hs,
      )
      | inr e ↦ rw e ((e, before_all x y ys px py pys e h), (h, hs))
    ]

    pub sort_by-Ordered : (xs : List A) → All P xs → Ordered (sort_by less xs)
    unfolding sort_by
    sort_by-Ordered [] _ = tt
    sort_by-Ordered (x ∷ xs) (p, ps) =
        insert_by-Ordered x (sort_by less xs) p (sort_by-All less P xs ps) (sort_by-Ordered xs ps)

module _ {A : Type 0} (less : A → A → Bool) where
  at_element : (P : A → Type 0) (y : A) (xs : List A) → All P xs → Any (λ x. x ≡ y) xs → P y
  at_element P y [] _ h = absurd h
  at_element P y (x ∷ xs) (p, ps) (inl e) = subst P e p
  at_element P y (x ∷ xs) (p, ps) (inr h) = at_element P y xs ps h

  -- What is cut off an ordered list comes before nothing that is kept.
  pub kept_or_after :
      (k : ℕ) (y : A) (xs : List A)
      → Ordered less xs
      → Any (λ x. x ≡ y) xs
      → Any (λ x. x ≡ y) (take k xs) ⊎ All (λ x. less y x ≡ false) (take k xs)
  kept_or_after zero y xs _ _ = inr tt
  kept_or_after (suc k) y [] _ h = absurd h
  kept_or_after (suc k) y (x ∷ xs) (h, hs) (inl e) = inl (inl e)
  kept_or_after (suc k) y (x ∷ xs) (h, hs) (inr m) = elim (kept_or_after k y xs hs m) [
    | inl here ↦ inl (inr here)
    | inr after ↦ inr (at_element (λ z. less z x ≡ false) y xs h m, after)
  ]

module _ {A : Type 0} {B : Type 0} (less : A → A → Bool) (less' : B → B → Bool) (f : A → B)
    (same : (x y : A) → less' (f x) (f y) ≡ less x y) where
  pub map-Ordered : (xs : List A) → Ordered less xs → Ordered less' (map f xs)
  map-Ordered [] h = tt
  map-Ordered (x ∷ xs) (h, hs) = (
    map-All (λ y. less' y (f x) ≡ false) f xs (All-map (λ y e. same y x ∙ e) xs h),
    map-Ordered xs hs,
  )
