-- ===== src/Prelude/Text.antt =====
-- Go strings as lists of bytes, and what the program uses of the package strings.
pub mod Graphic
use Prim.Native.Nat.{ℕ, zero, suc, ◌+◌, ◌-◌, ◌≤◌}
use Prim.Native.Char.{code}
use Prim.Native.String.{String}
use mathlib.Core.Path.{◌≡◌, refl, ap}
use mathlib.Core.Logic.{◌↔◌, inl, inr}
use mathlib.Core.Bool.{Bool, true, false, ◌&&◌, ◌||◌}
use mathlib.Core.Option.{Option, none, some}
use mathlib.Core.List.{List, [], ◌∷◌, ◌++◌, reverse}
use native.Mathlib.Omega.{arith}
use attndb.Prelude.Tests.{leb, ◌==◌, if◌then◌else◌, ==_iff, Bool-cases}
use attndb.Prelude.Lists.{length, take, drop, List-cases}

abbrev pub Bytes : Type 0
Bytes = List ℕ

-- The code points of a literal, which are its bytes when it is ASCII.
abbrev pub codes : String → Bytes
codes String.[] = []
codes (String.◌∷◌ c s) = code c ∷ codes s

unfoldable pub bytes_eq : Bytes → Bytes → Bool
bytes_eq [] [] = true
bytes_eq [] (b ∷ t) = false
bytes_eq (a ∷ s) [] = false
bytes_eq (a ∷ s) (b ∷ t) = (a == b) && bytes_eq s t

pub bytes_eq→eq : (s t : Bytes) → bytes_eq s t ≡ true → s ≡ t
unfolding bytes_eq
bytes_eq→eq [] [] h = refl
bytes_eq→eq [] (b ∷ t) h = cc
bytes_eq→eq (a ∷ s) [] h = cc
bytes_eq→eq (a ∷ s) (b ∷ t) h = ground (arith, bytes_eq→eq s t)

pub bytes_eq_refl : (s : Bytes) → bytes_eq s s ≡ true
unfolding bytes_eq
bytes_eq_refl [] = refl
bytes_eq_refl (a ∷ s) = ground (arith, bytes_eq_refl s)

pub bytes_eq_iff : (s t : Bytes) → (bytes_eq s t ≡ true) ↔ (s ≡ t)
bytes_eq_iff s t = (bytes_eq→eq s t, λ e. cc (bytes_eq_refl s, e))

-- text[a:b], for 0 ≤ a ≤ b ≤ len(text); Go panics elsewhere.
abbrev pub slice : Bytes → ℕ → ℕ → Bytes
slice text a b = take (b - a) (drop a text)

unfoldable pub has_prefix : Bytes → Bytes → Bool
has_prefix s [] = true
has_prefix [] (p ∷ ps) = false
has_prefix (c ∷ s) (p ∷ ps) = (c == p) && has_prefix s ps

unfoldable pub has_suffix : Bytes → Bytes → Bool
unfolding has_prefix
has_suffix s p = has_prefix (reverse s) (reverse p)

-- The number of bytes of the white space (unicode.IsSpace, in UTF-8) that a text starts with: its
-- first byte where that is ASCII space, 2 or 3 for U+0085, U+00A0, U+1680, U+2000 to U+200A,
-- U+2028, U+2029, U+202F, U+205F and U+3000, 0 where the text starts with no white space.
unfoldable pub space_width : Bytes → ℕ
space_width [] = 0
space_width (a ∷ []) = if a == b' ' || leb 9 a && leb a 13 then 1 else 0
space_width (a ∷ b ∷ []) =
    if a == b' ' || leb 9 a && leb a 13
    then 1
    else if a == 0xc2 && (b == 0x85 || b == 0xa0)
    then 2
    else 0
space_width (a ∷ b ∷ c ∷ _) =
    if a == b' ' || leb 9 a && leb a 13
    then 1
    else if a == 0xc2 && (b == 0x85 || b == 0xa0)
    then 2
    else if a == 0xe1 && b == 0x9a && c == 0x80
        || a == 0xe2
          && b == 0x80
          && (leb 0x80 c && leb c 0x8a || c == 0xa8 || c == 0xa9 || c == 0xaf)
        || a == 0xe2 && b == 0x81 && c == 0x9f
        || a == 0xe3 && b == 0x80 && c == 0x80
    then 3
    else 0

-- The same at the end of a text, which is given reversed.
unfoldable pub space_width_back : Bytes → ℕ
space_width_back [] = 0
space_width_back (a ∷ []) = space_width (a ∷ [])
space_width_back (a ∷ b ∷ []) =
    if space_width (a ∷ []) == 1 then 1 else if space_width (b ∷ a ∷ []) == 2 then 2 else 0
space_width_back (a ∷ b ∷ c ∷ _) =
    if space_width (a ∷ []) == 1
    then 1
    else if space_width (b ∷ a ∷ []) == 2
    then 2
    else if space_width (c ∷ b ∷ a ∷ []) == 3
    then 3
    else 0

-- Drops white space from the front of a text, found by the given width; the fuel is the length.
trim_by : (Bytes → ℕ) → ℕ → Bytes → Bytes
trim_by width zero s = s
trim_by width (suc fuel) s =
    let rest = trim_by width fuel (drop (width s) s) in if width s == 0 then s else rest

unfoldable pub trim_left : Bytes → Bytes
unfolding trim_by space_width
trim_left s = trim_by space_width (length s) s

-- strings.TrimSpace
unfoldable pub trim_space : Bytes → Bytes
unfolding trim_by trim_left space_width_back
trim_space s = let t = reverse (trim_left s) in reverse (trim_by space_width_back (length t) t)

trim_space_runs : trim_space (codes "  a b\n") ≡ codes "a b"
unfolding trim_space
trim_space_runs = refl

-- strings.Split at one byte; always at least one part.
unfoldable pub split : ℕ → Bytes → List Bytes
split sep [] = [] ∷ []
split sep (c ∷ s) = elim (split sep s) [
  | [] ↦ [] ∷ []
  | p ∷ ps ↦ if c == sep then [] ∷ p ∷ ps else (c ∷ p) ∷ ps
]

pub split_some : (sep : ℕ) (text : Bytes) → split sep text ≡ [] → ⊥
unfolding split
split_some sep [] e = cc
split_some sep (c ∷ text) e = elim (List-cases (split sep text)) [
  | inl f ↦ split_some sep text f
  | inr (p, ps, f) ↦ elim (Bool-cases (c == sep)) [
    | inl found ↦ absurd (cc (rw (found, if◌then◌else◌) at (rw (f, split) at e)))
    | inr other ↦ absurd (cc (rw (other, if◌then◌else◌) at (rw (f, split) at e)))
  ]
]

-- strings.Join
unfoldable pub join : Bytes → List Bytes → Bytes
join sep [] = []
join sep (p ∷ []) = p
join sep (p ∷ q ∷ ps) = p ++ (sep ++ join sep (q ∷ ps))

-- strings.Fields: the maximal runs without white space. `cur` is the field that is being read.
fields_from : ℕ → Bytes → Bytes → List Bytes
fields_from zero cur s = []
fields_from (suc fuel) [] [] = []
fields_from (suc fuel) (c ∷ cur) [] = (c ∷ cur) ∷ []
fields_from (suc fuel) [] (a ∷ s) =
    let skip = fields_from fuel [] (drop (space_width (a ∷ s)) (a ∷ s)) in
    let keep = fields_from fuel (a ∷ []) s in if space_width (a ∷ s) == 0 then keep else skip
fields_from (suc fuel) (c ∷ cur) (a ∷ s) =
    let skip = (c ∷ cur) ∷ fields_from fuel [] (drop (space_width (a ∷ s)) (a ∷ s)) in
    let keep = fields_from fuel ((c ∷ cur) ++ a ∷ []) s in
    if space_width (a ∷ s) == 0 then keep else skip

unfoldable pub fields : Bytes → List Bytes
unfolding fields_from space_width
fields s = fields_from (length s + 1) [] s

fields_runs : fields (codes " ab  c ") ≡ codes "ab" ∷ codes "c" ∷ []
unfolding fields
fields_runs = refl
