-- ===== src/Chunk/Chunkers.antt =====
-- The chunkers of internal/chunk/chunk.go: functions from a document to its chunks.
pub mod Cover
pub mod Anchor
use attndb.Prelude.{
  ℕ, ◌≡◌, refl, ◌||◌, List, [], ◌∷◌, ◌++◌, length, if◌then◌else◌, ltb, leb, Bool, true, false,
}
use attndb.Prelude.Int.{ℤ, pos, pos_part, ltb_ℤ}
use attndb.Prelude.Text.{Bytes, slice, trim_space, bytes_eq}
use attndb.Core.Spans.{Span}
use attndb.Core.Types.{Document, Chunk}
use attndb.Chunk.Token.{tokenize, tokenize_offset}
use attndb.Chunk.Window.{window}
use attndb.Chunk.Paragraph.{split_blank_lines}
use attndb.Chunk.Section.{Section, parse_sections}

unfoldable pub whole_doc : Document → List Chunk
whole_doc d =
    record {
      doc_id = d.id;
      span = record { start = 0; end = length d.text };
      text = d.text;
      heading_path = [];
    }
    ∷ []

-- strings.TrimSpace(body) == ""
unfoldable pub is_blank : Bytes → Bool
is_blank body = bytes_eq (trim_space body) []

unfoldable pub paragraphs_from : Document → List Span → List Chunk
unfolding is_blank
paragraphs_from d [] = []
paragraphs_from d (sp ∷ spans) =
    let body = slice d.text sp.start sp.end in
    let rest = paragraphs_from d spans in
    if is_blank body
    then rest
    else record { doc_id = d.id; span = sp; text = body; heading_path = [] } ∷ rest

unfoldable pub by_paragraph : Document → List Chunk
unfolding paragraphs_from
by_paragraph d = paragraphs_from d (split_blank_lines d.text)

-- The arguments are ints; the guards make them natural numbers.
unfoldable pub window_size : ℤ → ℕ
window_size size = if ltb_ℤ (pos 0) size then pos_part size else 256

unfoldable pub window_overlap : ℕ → ℤ → ℤ
window_overlap size overlap =
    if ltb_ℤ overlap (pos 0) || (if ltb_ℤ overlap (pos size) then false else true)
    then pos 0
    else overlap

unfoldable pub fixed_window : ℤ → ℤ → Document → List Chunk
unfolding window_size window_overlap
fixed_window size overlap d =
    window d (tokenize d.text) (window_size size) (window_overlap (window_size size) overlap) []

unfoldable pub section_max : ℤ → ℕ
section_max max_tokens = if ltb_ℤ (pos 0) max_tokens then pos_part max_tokens else 1024

unfoldable pub section_chunks : Document → ℕ → ℤ → Section → List Chunk
unfolding is_blank
section_chunks d max_tokens overlap sec =
    let body = slice d.text sec.span.start sec.span.end in
    let toks = tokenize_offset body sec.span.start in
    if is_blank body
    then []
    else if leb (length toks) max_tokens
    then record { doc_id = d.id; span = sec.span; text = body; heading_path = sec.path } ∷ []
    else window d toks max_tokens overlap sec.path

unfoldable pub sections_chunks : Document → ℕ → ℤ → List Section → List Chunk
unfolding section_chunks
sections_chunks d max_tokens overlap [] = []
sections_chunks d max_tokens overlap (sec ∷ secs) =
    section_chunks d max_tokens overlap sec ++ sections_chunks d max_tokens overlap secs

unfoldable pub by_section : ℤ → ℤ → Document → List Chunk
unfolding section_max sections_chunks
by_section max_tokens overlap d =
    sections_chunks d (section_max max_tokens) overlap (parse_sections d.text)
