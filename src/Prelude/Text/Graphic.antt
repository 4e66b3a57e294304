-- ===== src/Prelude/Text/Graphic.antt =====
-- A printing ASCII byte is no part of white space, so trimming keeps it.
use Prim.Native.Nat.{ℕ, zero, suc, ◌≤◌}
use mathlib.Core.Path.{◌≡◌, refl}
use mathlib.Core.Logic.{◌⊎◌, inl, inr}
use mathlib.Core.Bool.{true, false}
use mathlib.Core.Option.{some}
use mathlib.Core.List.{[], ◌∷◌, reverse, reverse-cons}
use native.Mathlib.Omega.{arith}
use attndb.Prelude.Tests.{◌==◌, Bool-cases}
use attndb.Prelude.Lists.{length, drop, get_elem?}
use attndb.Prelude.Quantifiers.{Any, Any-append}
use attndb.Prelude.Text.{
  Bytes, space_width, space_width_back, trim_by, trim_left, trim_space, bytes_eq,
}

abbrev pub IsGraphic : ℕ → Type 0
IsGraphic c = (0x21 ≤ c) × (c ≤ 0x7e)

abbrev pub HasByte : ℕ → Bytes → Type 0
HasByte c s = Any (λ x. x ≡ c) s

pub HasByte-get_elem? : (c k : ℕ) (s : Bytes) → get_elem? s k ≡ some c → HasByte c s
HasByte-get_elem? c k [] h = cc
HasByte-get_elem? c zero (x ∷ s) h = inl (cc)
HasByte-get_elem? c (suc k) (x ∷ s) h = inr (HasByte-get_elem? c k s h)

HasByte-reverse : (c : ℕ) (s : Bytes) → HasByte c s → HasByte c (reverse s)
HasByte-reverse c [] h = h
HasByte-reverse c (x ∷ s) (inl e) =
    rw reverse-cons (Any-append (λ y. y ≡ c) (reverse s) (x ∷ []) (inr (inl e)))
HasByte-reverse c (x ∷ s) (inr h) =
    rw reverse-cons (Any-append (λ y. y ≡ c) (reverse s) (x ∷ []) (inl (HasByte-reverse c s h)))

-- Dropping what `width` finds in front keeps a printing byte.
abbrev Keeps : (Bytes → ℕ) → Type 0
Keeps width = (c : ℕ) (s : Bytes) → IsGraphic c → HasByte c s → HasByte c (drop (width s) s)

space_width-Keeps : Keeps space_width
unfolding space_width
space_width-Keeps c [] g h = h
space_width-Keeps c (x ∷ []) g h = ground arith
space_width-Keeps c (x ∷ y ∷ []) g h = ground arith
space_width-Keeps c (x ∷ y ∷ z ∷ s) g h = ground arith

one_byte : (c x : ℕ) → IsGraphic c → (space_width (x ∷ []) == 1) ≡ true → x ≡ c → ⊥
unfolding space_width
one_byte c x g h e = ground arith

two_bytes :
    (c y x : ℕ) → IsGraphic c → (space_width (y ∷ x ∷ []) == 2) ≡ true → (x ≡ c) ⊎ (y ≡ c) → ⊥
unfolding space_width
two_bytes c y x g h e = ground arith

three_bytes :
    (c z y x : ℕ)
    → IsGraphic c
    → (space_width (z ∷ y ∷ x ∷ []) == 3) ≡ true
    → (x ≡ c) ⊎ ((y ≡ c) ⊎ (z ≡ c))
    → ⊥
unfolding space_width
three_bytes c z y x g h e = ground arith

space_width_back-Keeps : Keeps space_width_back
unfolding space_width_back
space_width_back-Keeps c [] g h = h
space_width_back-Keeps c (x ∷ []) g h = space_width-Keeps c (x ∷ []) g h
space_width_back-Keeps c (x ∷ y ∷ []) g h = ground (arith, one_byte c x g, two_bytes c y x g)
space_width_back-Keeps c (x ∷ y ∷ z ∷ s) g h =
    ground (arith, one_byte c x g, two_bytes c y x g, three_bytes c z y x g)

trim_by-Keeps :
    (width : Bytes → ℕ)
    → Keeps width
    → (fuel c : ℕ) (s : Bytes) → IsGraphic c
    → HasByte c s
    → HasByte c (trim_by width fuel s)
unfolding trim_by
trim_by-Keeps width keep zero c s g h = h
trim_by-Keeps width keep (suc fuel) c s g h = elim (Bool-cases (width s == 0)) [
  | inl e ↦ rw e h
  | inr e ↦ rw e (trim_by-Keeps width keep fuel c (drop (width s) s) g (keep c s g h))
]

not_nil : (c : ℕ) (s : Bytes) → HasByte c s → bytes_eq s [] ≡ false
unfolding bytes_eq
not_nil c [] h = absurd h
not_nil c (x ∷ s) h = refl

-- A text with a printing byte is not trimmed to nothing.
pub trim_space-HasByte :
    (c : ℕ) (s : Bytes) → IsGraphic c → HasByte c s → bytes_eq (trim_space s) [] ≡ false
unfolding trim_space trim_left bytes_eq
trim_space-HasByte c s g h =
    let t = trim_by space_width (length s) s in
    let left = trim_by-Keeps space_width space_width-Keeps (length s) c s g h in
    let back = HasByte-reverse c t left in
    let both =
      trim_by-Keeps space_width_back space_width_back-Keeps (length (reverse t)) c (reverse t) g
        back in
    let u = trim_by space_width_back (length (reverse t)) (reverse t) in
    not_nil c (reverse u) (HasByte-reverse c u both)
