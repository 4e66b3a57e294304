-- ===== src/Chunk/Paragraph.antt =====
-- `splitBlankLines` of internal/chunk/chunk.go. The unread text stands for the index: it is the
-- text from position `i` on.
pub mod Cover
use attndb.Prelude.{
  ℕ, zero, suc, ◌+◌, ◌≡◌, refl, Bool, ◌||◌, Option, none, some, List, [], ◌∷◌, length,
  if◌then◌else◌, ltb, ◌==◌,
}
use attndb.Prelude.Text.{Bytes, codes}
use attndb.Core.Spans.{Span}

-- The loop over `j`, and the test behind it. If the text from `j` on is spaces and tabs and then a
-- newline, the result is the position behind that newline, with the text from there on.
unfoldable pub blank_line : Bytes → ℕ → Option (ℕ × Bytes)
blank_line [] j = none
blank_line (c ∷ s) j =
    let more = blank_line s (j + 1) in
    if c == b'\n' then some (j + 1, s) else if c == b' ' || c == b'\t' then more else none

-- `if text[i] == '\n'`
unfoldable pub boundary : Bytes → ℕ → Option (ℕ × Bytes)
unfolding blank_line
boundary [] i = none
boundary (c ∷ s) i = if c == b'\n' then blank_line s (i + 1) else none

unfoldable pub emit : ℕ → ℕ → List Span → List Span
emit start i spans = if ltb start i then record { start = start; end = i } ∷ spans else spans

-- The outer loop. Each round reads at least one byte, so the length of the text is fuel enough.
unfoldable pub split_from : ℕ → Bytes → ℕ → ℕ → List Span
unfolding emit
split_from fuel [] i start = emit start i []
split_from zero (c ∷ s) i start = []
split_from (suc fuel) (c ∷ s) i start = elim (boundary (c ∷ s) i) [
  | none ↦ split_from fuel s (i + 1) start
  | some (j, rest) ↦ emit start i (split_from fuel rest j j)
]

unfoldable pub split_blank_lines : Bytes → List Span
unfolding split_from boundary
split_blank_lines text = split_from (length text) text 0 0

split_runs :
    split_blank_lines (codes "ab\n \nc\nd\n\n")
    ≡ record { start = 0; end = 2 } ∷ record { start = 5; end = 8 } ∷ []
unfolding split_blank_lines
split_runs = refl
