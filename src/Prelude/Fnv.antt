-- ===== src/Prelude/Fnv.antt =====
-- The package hash/fnv, for New64a. A `uint64` is a number below 2 ^ 64.
use Prim.Native.Nat.{ℕ, ◌*◌, ◌%◌, ◌^◌, bit_xor}
use mathlib.Core.Path.{◌≡◌, refl}
use mathlib.Core.List.{[], ◌∷◌}
use attndb.Prelude.Text.{Bytes, codes}

-- fnv.New64a, from a hash on.
unfoldable pub fnv_from : ℕ → Bytes → ℕ
fnv_from h [] = h
fnv_from h (c ∷ s) = fnv_from (bit_xor h c * 1099511628211 % 2 ^ 64) s

unfoldable pub fnv64a : Bytes → ℕ
unfolding fnv_from
fnv64a s = fnv_from 14695981039346656037 s

fnv64a_runs : (fnv64a [] ≡ 0xcbf29ce484222325) × (fnv64a (codes "a") ≡ 0xaf63dc4c8601ec8c)
unfolding fnv64a
fnv64a_runs = (refl, refl)
