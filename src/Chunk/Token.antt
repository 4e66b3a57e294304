-- ===== src/Chunk/Token.antt =====
-- `tokenizeOffset` of internal/chunk/chunk.go. The loop ranges over the bytes of the text: the code
-- ranges over its runes, and differs from this only at continuation bytes, which are not white
-- space and come when `start` is set.
pub mod Runs
use attndb.Prelude.{
  ℕ, zero, suc, ◌+◌, ◌-◌, ◌≤◌, ◌<◌, ◌≡◌, refl, Bool, true, false, not, ◌&&◌, ◌||◌, Option, none,
  some, List, [], ◌∷◌, length, get_elem?, if◌then◌else◌, arith, ltb, leb, ◌==◌, Bool-cases, inl,
  inr, All,
}
use attndb.Prelude.Text.{Bytes, codes}
use attndb.Core.Spans.{Span, Holds}

unfoldable pub is_space : ℕ → Bool
is_space r = r == b' ' || r == b'\t' || r == b'\n' || r == b'\r'

-- `start` is none for -1. Each `append` of the loop is the head of the result.
unfoldable pub tokens_from : ℕ → Bytes → ℕ → Option ℕ → List Span
tokens_from base [] i none = []
tokens_from base [] i (some start) = record { start = base + start; end = base + i } ∷ []
tokens_from base (r ∷ text) i none =
    tokens_from base text (i + 1) (if is_space r then none else some i)
tokens_from base (r ∷ text) i (some start) =
    let ended =
      record { start = base + start; end = base + i } ∷ tokens_from base text (i + 1) none in
    let inside = tokens_from base text (i + 1) (some start) in if is_space r then ended else inside

unfoldable pub tokenize_offset : Bytes → ℕ → List Span
unfolding tokens_from is_space
tokenize_offset text base = tokens_from base text 0 none

unfoldable pub tokenize : Bytes → List Span
unfolding tokenize_offset
tokenize text = tokenize_offset text 0

tokenize_runs :
    tokenize (codes " ab c") ≡ record { start = 1; end = 3 } ∷ record { start = 4; end = 5 } ∷ []
unfolding tokenize
tokenize_runs = refl
