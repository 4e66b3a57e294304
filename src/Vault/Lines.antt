-- ===== src/Vault/Lines.antt =====
-- The windows of lines of `readDoc`, and `lineOf` and the clamping of `spanPreview` in cmd/attndb/serve.go.
pub mod Verbatim
pub mod Between
pub mod Windows
pub mod Around
use attndb.Prelude.{
  ℕ, suc, ◌+◌, ◌-◌, ◌≡◌, refl, Bool, true, false, ◌||◌, List, [], ◌∷◌, ◌++◌, length, take, drop,
  min, if◌then◌else◌, ltb, leb, ◌==◌,
}
use attndb.Prelude.Int.{ℤ, pos, negsuc, pos_part, ltb_ℤ}
use attndb.Prelude.Text.{Bytes, codes, split, join}
use attndb.Core.Spans.{Span}

-- lines[n-1] == "" : the last line is dropped, and the flag says so. `split` gives one line at least.
unfoldable pub editor_lines : List Bytes → List Bytes × Bool
editor_lines [] = ([], false)
editor_lines ([] ∷ []) = ([], true)
editor_lines ((c ∷ l) ∷ []) = ((c ∷ l) ∷ [], false)
editor_lines (l ∷ m ∷ lines) = let (rest, nl) = editor_lines (m ∷ lines) in (l ∷ rest, nl)

pub record ReadWindow : Type 0 where
  pub content : Bytes
  pub start_line : ℕ
  pub end_line : ℤ
  pub total_lines : ℕ

-- `start` is at least 1 and at most total + 1, `end` at most total.
unfoldable pub window_content : List Bytes → Bool → ℕ → ℕ → Bytes
unfolding join
window_content lines trailing_nl start end =
    if leb start end
    then join (codes "\n") (take (end - (start - 1)) (drop (start - 1) lines))
      ++ (if ltb end (length lines) || trailing_nl then codes "\n" else [])
    else []

abbrev pub read_doc_default_limit : ℕ
read_doc_default_limit = 2000

abbrev pub max_int : ℕ
max_int = 9223372036854775807

-- The int that a sum of two positive ints gives: beyond the largest one it is negative.
unfoldable pub wrap_int : ℕ → ℤ
wrap_int n = if leb n max_int then pos n else negsuc (18446744073709551615 - n)

-- `offset` and `limit` are any ints.
unfoldable pub window_start : ℤ → ℕ → ℕ
window_start offset total =
    let start = if ltb_ℤ (pos 0) offset then pos_part offset else 1 in
    if ltb total start then total + 1 else start

unfoldable pub window_end : ℤ → ℕ → ℕ → ℤ
unfolding wrap_int
window_end limit start total =
    let end =
      wrap_int
        (start + (if ltb_ℤ (pos 0) limit then pos_part limit else read_doc_default_limit) - 1) in
    if ltb_ℤ (pos total) end then pos total else end

-- No line is read up to a negative number.
unfoldable pub window_upto : List Bytes → Bool → ℕ → ℤ → Bytes
unfolding window_content
window_upto lines trailing_nl start (pos end) = window_content lines trailing_nl start end
window_upto lines trailing_nl start (negsuc k) = []

unfoldable pub read_window : Bytes → ℤ → ℤ → ReadWindow
unfolding split editor_lines window_upto window_start window_end
read_window text offset limit =
    let (lines, trailing_nl) = editor_lines (split b'\n' text) in
    let start = window_start offset (length lines) in
    let end = window_end limit start (length lines) in
    record {
      content = window_upto lines trailing_nl start end;
      start_line = start;
      end_line = end;
      total_lines = length lines;
    }

-- strings.Count(text, "\n")
unfoldable pub newlines : Bytes → ℕ
newlines [] = 0
newlines (c ∷ text) = let n = newlines text in if c == b'\n' then suc n else n

-- lineOf, for an offset that is not negative
unfoldable pub line_of : Bytes → ℕ → ℕ
unfolding newlines
line_of text off = 1 + newlines (take (min off (length text)) text)

-- The span that `spanPreview` cuts, when the file may have become shorter.
unfoldable pub clamped : Span → ℕ → Span
clamped sp n = record { start = min sp.start (min sp.end n); end = min sp.end n }

window_runs :
    ((read_window (codes "a\nb\nc\n") (pos 2) (pos 1)).content ≡ codes "b\n")
    × ((read_window (codes "a\nb\nc") (pos 2) (pos 0)).content ≡ codes "b\nc")
    × ((read_window (codes "a\nb\nc") (pos 2) (pos max_int)).content ≡ [])
unfolding read_window
window_runs = (refl, refl, refl)
