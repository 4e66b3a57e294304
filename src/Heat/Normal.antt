-- ===== src/Heat/Normal.antt =====
-- The normalizers of internal/heat/heat.go: raw scores to weights.
use attndb.Prelude.{
  ℕ, suc, ◌||◌, List, [], ◌∷◌, map, length, get_or, set, replicate, count_up, if◌then◌else◌,
}
use attndb.Prelude.Sort.{sort_by}
use attndb.Core.Floats.{Floats}

module _ (F : Floats) where
  open F use {F64, zero64, one64, sub64, of_ℕ64, div64, lt64, eq64, min64, max64}

  min_from : F64 → List F64 → F64
  min_from lo [] = lo
  min_from lo (s ∷ scores) = min_from (min64 lo s) scores

  max_from : F64 → List F64 → F64
  max_from hi [] = hi
  max_from hi (s ∷ scores) = max_from (max64 hi s) scores

  -- MinMax.Normalize
  unfoldable pub min_max : List F64 → List F64
  unfolding min_from max_from
  min_max [] = []
  min_max (s0 ∷ scores) =
      let lo = min_from s0 (s0 ∷ scores) in
      let hi = max_from s0 (s0 ∷ scores) in
      let rng = sub64 hi lo in
      map (λ s. if eq64 rng zero64 then one64 else div64 (sub64 s lo) rng) (s0 ∷ scores)

  pub record Affine : Type 0 where
    pub lo : F64
    pub hi : F64

  unfoldable pub clamp : F64 → F64
  clamp v = if lt64 v zero64 then zero64 else if lt64 one64 v then one64 else v

  -- One round of Affine.Normalize; `continue` leaves the zero that `make` put there.
  unfoldable pub scale : Affine → F64 → F64
  unfolding clamp
  scale a s =
      let rng = sub64 a.hi a.lo in
      if lt64 rng zero64 || eq64 rng zero64 then zero64 else clamp (div64 (sub64 s a.lo) rng)

  unfoldable pub affine : Affine → List F64 → List F64
  unfolding scale
  affine a scores = map (scale a) scores

  -- Rank.Normalize: the best score first, and each gets (n - rank) / n.
  put_ranks : ℕ → ℕ → List ℕ → List F64 → List F64
  put_ranks n rank [] out = out
  put_ranks n rank (i ∷ idx) out =
      put_ranks n (suc rank) idx (set out i (div64 (sub64 (of_ℕ64 n) (of_ℕ64 rank)) (of_ℕ64 n)))

  unfoldable pub rank_scores : List F64 → List F64
  unfolding put_ranks sort_by
  rank_scores scores =
      put_ranks (length scores) 0
        (sort_by (λ a b. lt64 (get_or scores b zero64) (get_or scores a zero64))
          (count_up (length scores) 0))
        (replicate (length scores) zero64)
