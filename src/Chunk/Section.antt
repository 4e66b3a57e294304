-- ===== src/Chunk/Section.antt =====
-- `parseSections` and `atxHeading` of internal/chunk/chunk.go.
-- The loop looks for the next newline from `lineStart` on; here it ranges over the parts of the
-- text between newlines, of which the last is the one where the code finds no newline and breaks.
-- The top of `stack` is its head. `append` is the head of the result.
pub mod Cover
pub mod Path
use attndb.Prelude.{
  ℕ, zero, suc, ◌+◌, ◌≡◌, refl, Bool, ◌||◌, Option, none, some, List, [], ◌∷◌, ◌++◌, map, length,
  if◌then◌else◌, ltb, leb, ◌==◌, get_or, drop,
}
use mathlib.Core.List.{reverse}
use attndb.Prelude.Text.{Bytes, codes, split, trim_space}
use attndb.Core.Spans.{Span}

pub record Head : Type 0 where
  pub level : ℕ
  pub title : Bytes

pub record Section : Type 0 where
  pub span : Span
  pub path : List Bytes

-- for i < len(line) && line[i] == '#' { i++ }
hashes : Bytes → ℕ
hashes [] = 0
hashes (c ∷ s) = let n = hashes s in if c == b'#' then suc n else 0

unfoldable pub atx_heading : Bytes → Option Head
unfolding hashes
atx_heading line =
    let i = hashes line in
    if i == 0
      || ltb 6 i
      || leb (length line) i
      || (if get_or line i 0 == b' ' then Bool.false else Bool.true)
    then none
    else some (record { level = i; title = trim_space (drop (i + 1) line) })

unfoldable pub pop : ℕ → List Head → List Head
pop lvl [] = []
pop lvl (h ∷ stack) = let rest = pop lvl stack in if leb lvl h.level then rest else h ∷ stack

unfoldable pub flush : ℕ → List Bytes → ℕ → List Section → List Section
flush body_start cur_path end secs =
    if ltb body_start end
    then record { span = record { start = body_start; end = end }; path = cur_path } ∷ secs
    else secs

unfoldable pub path_of : List Head → List Bytes
path_of stack = reverse (map (λ (h : Head). h.title) stack)

-- The state of the loop; `cur_path` is the path of `stack`.
unfoldable pub sections_from : ℕ → List Bytes → ℕ → List Head → ℕ → List Section
unfolding atx_heading pop flush path_of
sections_from len [] line_start stack body_start = flush body_start (path_of stack) len []
sections_from len (line ∷ lines) line_start stack body_start = elim (atx_heading line) [
  | none ↦ sections_from len lines (line_start + length line + 1) stack body_start
  | some h ↦ flush body_start (path_of stack) line_start (
      sections_from len lines (line_start + length line + 1) (h ∷ pop h.level stack)
        (line_start + length line + 1))
]

unfoldable pub parse_sections : Bytes → List Section
unfolding sections_from
parse_sections text = sections_from (length text) (split b'\n' text) 0 [] 0

sections_run :
    parse_sections (codes "a\n# T\nb\n## U\nc")
    ≡ record { span = record { start = 0; end = 2 }; path = [] }
      ∷ record { span = record { start = 6; end = 8 }; path = codes "T" ∷ [] }
      ∷ record { span = record { start = 13; end = 14 }; path = codes "T" ∷ codes "U" ∷ [] }
      ∷ []
unfolding parse_sections trim_space split
sections_run = refl
