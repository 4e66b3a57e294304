-- ===== src/Prelude/Quantifiers.antt =====
-- Predicates on lists by recursion, which the tactics read: every element, some element.
use mathlib.Core.Logic.{◌⊎◌, inl, inr}
use Prim.Native.Nat.{ℕ, zero, suc}
use mathlib.Core.List.{List, [], ◌∷◌, ◌++◌, map}
use attndb.Prelude.Lists.{take}

module _ {ℓ} {A : Type ℓ} (P : A → Type 0) where
  abbrev pub All : List A → Type 0
  All [] = Unit
  All (x ∷ xs) = P x × All xs

  abbrev pub Any : List A → Type 0
  Any [] = ⊥
  Any (x ∷ xs) = P x ⊎ Any xs

  pub All-append : (xs ys : List A) → All xs → All ys → All (xs ++ ys)
  All-append [] ys _ hy = hy
  All-append (x ∷ xs) ys (px, hx) hy = (px, All-append xs ys hx hy)

module _ {ℓ} {A : Type ℓ} {P Q : A → Type 0} (f : (a : A) → P a → Q a) where
  pub All-map : (xs : List A) → All P xs → All Q xs
  All-map [] _ = tt
  All-map (x ∷ xs) (p, ps) = (f x p, All-map xs ps)

  pub Any-map : (xs : List A) → Any P xs → Any Q xs
  Any-map [] h = h
  Any-map (x ∷ xs) (inl p) = inl (f x p)
  Any-map (x ∷ xs) (inr ps) = inr (Any-map xs ps)

module _ {ℓ} {A : Type ℓ} (P : A → Type 0) where
  pub Any-append : (xs ys : List A) → Any P xs ⊎ Any P ys → Any P (xs ++ ys)
  Any-append [] ys (inl h) = absurd h
  Any-append [] ys (inr h) = h
  Any-append (x ∷ xs) ys (inl (inl p)) = inl p
  Any-append (x ∷ xs) ys (inl (inr ps)) = inr (Any-append xs ys (inl ps))
  Any-append (x ∷ xs) ys (inr h) = inr (Any-append xs ys (inr h))

  pub take-All : (n : ℕ) (xs : List A) → All P xs → All P (take n xs)
  take-All zero xs h = tt
  take-All (suc n) [] h = tt
  take-All (suc n) (x ∷ xs) (p, h) = (p, take-All n xs h)

module _ {ℓ κ} {A : Type ℓ} {B : Type κ} (P : B → Type 0) (f : A → B) where
  pub map-All : (xs : List A) → All (λ x. P (f x)) xs → All P (map f xs)
  map-All [] h = tt
  map-All (x ∷ xs) (p, h) = (p, map-All xs h)

  pub map-Any : (xs : List A) → Any (λ x. P (f x)) xs → Any P (map f xs)
  map-Any [] h = h
  map-Any (x ∷ xs) (inl p) = inl p
  map-Any (x ∷ xs) (inr h) = inr (map-Any xs h)
