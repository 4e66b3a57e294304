-- ===== src/Chunk/Window/Cover.antt =====
-- The windows of `window` hold every token, when the overlap is not negative.
use attndb.Prelude.{
  ℕ, zero, suc, ◌+◌, ◌-◌, ◌≤◌, ◌<◌, ◌≡◌, refl, true, false, List, length, get_or, min, ltb, ◌==◌,
  arith, Bool-cases, inl, inr, All, Any,
}
use attndb.Prelude.Int.{ℤ, pos, ◌≤ℤ◌, ◌-ℤ◌}
use attndb.Prelude.Text.{Bytes}
use attndb.Core.Spans.{Span, InOrder}
use attndb.Core.Nth.{nowhere, get_or_mono}
use attndb.Core.Types.{Document, Chunk}
use attndb.Chunk.Window.{window_step, window_span, window_chunk, window_from, window}

-- The chunk holds the token.
abbrev pub HoldsToken : Span → Chunk → Type 0
HoldsToken t c = (c.span.start ≤ t.start) × (t.end ≤ c.span.end)

-- The chunk is the window of at most `size` tokens from token `i` to token `j - 1`.
abbrev pub IsWindow : Document → List Span → ℕ → List Bytes → Chunk → Type 0
IsWindow d toks size path c =
    (i : ℕ) × (j : ℕ) × (i < j)
    × (j ≤ length toks)
    × (j ≤ i + size)
    × (c ≡ window_chunk d path (window_span toks i j))

module _ (d : Document) (toks : List Span) (size : ℕ) (path : List Bytes)
    (size_pos : 0 < size) where
  from-IsWindow :
      (fuel step i : ℕ) → All (IsWindow d toks size path) (window_from fuel d toks size step path i)
  unfolding window_from
  from-IsWindow zero step i = tt
  from-IsWindow (suc fuel) step i = elim (Bool-cases (ltb i (length toks))) [
    | inl inside ↦ rw inside (
      (i, min (i + size) (length toks), ground arith, omega arith, omega arith, refl),
      (elim (Bool-cases (min (i + size) (length toks) == length toks)) [
        | inl last ↦ rw last tt
        | inr more ↦ rw more (from-IsWindow fuel step (i + step))
      ]),
    )
    | inr past ↦ rw past tt
  ]

  from-HoldsToken :
      (lo hi : ℕ)
      → InOrder lo hi toks
      → (fuel step i k : ℕ) → 0 < step
      → step ≤ size
      → i ≤ k
      → k < length toks
      → length toks ≤ fuel + i
      → Any (HoldsToken (get_or toks k nowhere)) (window_from fuel d toks size step path i)
  unfolding window_from window_span window_chunk
  from-HoldsToken lo hi o zero step i k p q a b f = absurd (omega arith)
  from-HoldsToken lo hi o (suc fuel) step i k p q a b f =
      let inside : ltb i (length toks) ≡ true = ground arith in
      elim (Bool-cases (ltb k (i + size))) [
        | inl here ↦ rw inside (
            inl (
              (get_or_mono lo hi i k toks o a b).0,
              (get_or_mono lo hi k (min (i + size) (length toks) - 1) toks o (ground arith)
                  (omega arith)).1,
            ))
        | inr later ↦
            let more : (min (i + size) (length toks) == length toks) ≡ false = ground arith in
            rw (inside, more)
              (inr
                (from-HoldsToken lo hi o fuel step (i + step) k p q (ground arith) b (omega arith)))
      ]

  -- Each window is the run of at most `size` tokens that its text is cut from.
  pub window-IsWindow :
      (overlap : ℤ) → All (IsWindow d toks size path) (window d toks size overlap path)
  unfolding window
  window-IsWindow overlap = from-IsWindow (length toks) (window_step size overlap) 0

  -- If the tokens are in order and the overlap is not negative, some window holds each token, and
  -- each window is the run of at most `size` tokens that its text is cut from.
  pub window-HoldsToken :
      (overlap : ℤ)
      → pos 0 ≤ℤ overlap
      → (lo hi : ℕ) → InOrder lo hi toks
      → All (IsWindow d toks size path) (window d toks size overlap path)
        × ((k : ℕ)
            → k < length toks
            → Any (HoldsToken (get_or toks k nowhere)) (window d toks size overlap path))
  unfolding window window_step ◌-ℤ◌
  window-HoldsToken overlap nonneg lo hi o = (
    from-IsWindow (length toks) (window_step size overlap) 0,
    λ k b.
        from-HoldsToken lo hi o (length toks) (window_step size overlap) 0 k (ground arith)
          (ground arith) (omega arith) b (omega arith),
  )
