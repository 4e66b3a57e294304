-- ===== src/Chunk/Window.antt =====
-- `window` of internal/chunk/chunk.go: overlapping windows of tokens.
pub mod Cover
use attndb.Prelude.{
  ℕ, zero, suc, ◌+◌, ◌-◌, ◌≡◌, refl, Option, none, some, List, [], ◌∷◌, length, get_or, min,
  if◌then◌else◌, ltb, leb, ◌==◌,
}
use attndb.Prelude.Int.{ℤ, pos, pos_part, ◌-ℤ◌, ltb_ℤ}
use attndb.Prelude.Text.{Bytes, slice, codes}
use attndb.Core.Spans.{Span}
use attndb.Core.Nth.{nowhere}
use attndb.Core.Types.{Document, Chunk}

-- Both callers make `size` positive. `overlap` is any int.
unfoldable pub window_step : ℕ → ℤ → ℕ
unfolding ◌-ℤ◌
window_step size overlap =
    let step = pos size -ℤ overlap in if ltb_ℤ (pos 0) step then pos_part step else size

-- The span from token `i` to token `j - 1`.
unfoldable pub window_span : List Span → ℕ → ℕ → Span
window_span toks i j = record {
  start = (get_or toks i nowhere).start;
  end = (get_or toks (j - 1) nowhere).end;
}

unfoldable pub window_chunk : Document → List Bytes → Span → Chunk
window_chunk d path sp = record {
  doc_id = d.id;
  span = sp;
  text = slice d.text sp.start sp.end;
  heading_path = path;
}

-- The loop from `i` on. The fuel is the number of tokens, which the steps (at least 1) cannot
-- outlast.
unfoldable pub window_from : ℕ → Document → List Span → ℕ → ℕ → List Bytes → ℕ → List Chunk
unfolding window_span window_chunk
window_from zero d toks size step path i = []
window_from (suc fuel) d toks size step path i =
    let j = min (i + size) (length toks) in
    let rest = window_from fuel d toks size step path (i + step) in
    if ltb i (length toks)
    then window_chunk d path (window_span toks i j) ∷ (if j == length toks then [] else rest)
    else []

unfoldable pub window : Document → List Span → ℕ → ℤ → List Bytes → List Chunk
unfolding window_step window_from
window d toks size overlap path =
    window_from (length toks) d toks size (window_step size overlap) path 0
