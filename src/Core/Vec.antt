-- ===== src/Core/Vec.antt =====
-- internal/core/vec.go and `TokenVecs` of types.go: vectors and the late-interaction score.
-- The code indexes `b` by the positions of `a` and would panic on a shorter `b`; the vectors of one
-- encoder have one length, and here the sums stop at the shorter one.
use attndb.Prelude.{ℕ, ◌+◌, ◌||◌, Option, none, some, List, [], ◌∷◌, ◌++◌, map, if◌then◌else◌}
use attndb.Core.Spans.{Span}
use attndb.Core.Floats.{Floats}

module _ (F : Floats) where
  open F use {
    F32, F64, zero32, minus_one32, add32, mul32, lt32, widen, narrow, zero64, one64, add64, mul64,
    div64, sqrt64, eq64,
  }

  pub record TokenVecs : Type 0 where
    pub vecs : List (List F32)
    pub offsets : List Span

  sum_squares : List F32 → F64 → F64
  sum_squares [] sum = sum
  sum_squares (x ∷ v) sum = sum_squares v (add64 sum (mul64 (widen x) (widen x)))

  unfoldable pub normalize : List F32 → List F32
  unfolding sum_squares
  normalize v =
      let sum = sum_squares v zero64 in
      if eq64 sum zero64 then v else map (λ x. mul32 x (narrow (div64 one64 (sqrt64 sum)))) v

  cosine_sums : List F32 → List F32 → F64 → F64 → F64 → F64 × F64 × F64
  cosine_sums [] b dot na nb = (dot, na, nb)
  cosine_sums (x ∷ a) [] dot na nb = (dot, na, nb)
  cosine_sums (x ∷ a) (y ∷ b) dot na nb =
      cosine_sums a b (add64 dot (mul64 (widen x) (widen y))) (add64 na (mul64 (widen x) (widen x)))
        (add64 nb (mul64 (widen y) (widen y)))

  unfoldable pub cosine : List F32 → List F32 → F32
  unfolding cosine_sums
  cosine a b =
      let (dot, na, nb) = cosine_sums a b zero64 zero64 zero64 in
      if eq64 na zero64 || eq64 nb zero64
      then zero32
      else narrow (div64 dot (mul64 (sqrt64 na) (sqrt64 nb)))

  -- The inner loop of `MaxSim`; `best_j` is none for -1.
  pub best_from : List F32 → List (List F32) → ℕ → F32 → Option ℕ → F32 × Option ℕ
  best_from qv [] j best best_j = (best, best_j)
  best_from qv (dv ∷ d) j best best_j =
      let s = cosine qv dv in
      best_from qv d (j + 1) (if lt32 best s then s else best)
        (if lt32 best s then some j else best_j)

  pub max_sim_from :
      List (List F32) → List (List F32) → F32 → List (Option ℕ) → F32 × List (Option ℕ)
  max_sim_from [] d score matched = (score, matched)
  max_sim_from (qv ∷ q) d score matched =
      let (best, best_j) = best_from qv d 0 minus_one32 none in
      max_sim_from q d (elim best_j [ none ↦ score | some _ ↦ add32 score best ])
        (matched ++ best_j ∷ [])

  unfoldable pub max_sim : TokenVecs → TokenVecs → F32 × List (Option ℕ)
  unfolding max_sim_from best_from cosine
  max_sim q d = max_sim_from q.vecs d.vecs zero32 []
