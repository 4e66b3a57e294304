-- ===== src/Tests/Chunks.antt =====
-- The chunkers on a small note.
use attndb.Prelude.{
  ℕ, ◌+◌, ◌<◌, ◌≡◌, refl, ◌↔◌, false, List, [], ◌∷◌, some, length, get_or, get_elem?, arith, All,
  Any,
}
use attndb.Prelude.Int.{pos}
use attndb.Prelude.Text.{codes, split}
use attndb.Core.Spans.{Span, InOrder, Covers}
use attndb.Core.Nth.{nowhere}
use attndb.Core.Types.{Document}
use attndb.Chunk.Token.{is_space, tokenize_offset}
use attndb.Chunk.Token.Runs.{tokenize_offset-Covers}
use attndb.Chunk.Window.{window}
use attndb.Chunk.Window.Cover.{IsWindow, HoldsToken, window-HoldsToken}
use attndb.Chunk.Paragraph.{split_blank_lines}
use attndb.Chunk.Paragraph.Cover.{is_separator, Unbroken, split_blank_lines-Covers}
use attndb.Chunk.Section.{atx_heading, parse_sections}
use attndb.Chunk.Section.Cover.{spans, in_heading, parse_sections-Covers}
use attndb.Chunk.Section.Path.{NamesEnclosing, parse_sections-NamesEnclosing}
use attndb.Chunk.Chunkers.{whole_doc, by_paragraph, fixed_window, by_section}
use attndb.Chunk.Chunkers.Cover.{InChunk, by_paragraph-InChunk, by_section-InChunk}
use attndb.Chunk.Chunkers.Anchor.{IsAnchored, chunkers-IsAnchored}

abbrev note : Document
note = record { id = codes "a.md"; text = codes "# A\n\nsome text\n## B\nmore"; meta = [] }

abbrev first_span : Span
first_span = record { start = 2; end = 7 }

abbrev second_span : Span
second_span = record { start = 5; end = 9 }

abbrev bound : Span
bound = record { start = 1; end = 12 }

abbrev words : List Span
words = first_span ∷ record { start = 8; end = 11 } ∷ record { start = 12; end = 15 } ∷ []

tokenize_offset-Covers_example :
    InOrder 3 (3 + length note.text) (tokenize_offset note.text 3)
    × ((k c : ℕ)
        → get_elem? note.text k ≡ some c
        → Covers (tokenize_offset note.text 3) (3 + k) ↔ (is_space c ≡ false))
tokenize_offset-Covers_example = tokenize_offset-Covers note.text 3

window-HoldsToken_example :
    All (IsWindow note words 2 []) (window note words 2 (pos 1) [])
    × ((k : ℕ)
        → k < length words
        → Any (HoldsToken (get_or words k nowhere)) (window note words 2 (pos 1) []))
window-HoldsToken_example =
    window-HoldsToken note words 2 [] (omega arith) (pos 1) (omega arith) 0 25 (
      omega arith,
      omega arith,
      (omega arith, omega arith, (omega arith, omega arith, omega arith)),
    )

split_blank_lines-Covers_example :
    InOrder 0 (length note.text) (split_blank_lines note.text)
    × All (Unbroken note.text) (split_blank_lines note.text)
    × ((p c : ℕ)
        → get_elem? note.text p ≡ some c
        → is_separator c ≡ false
        → Covers (split_blank_lines note.text) p)
split_blank_lines-Covers_example = split_blank_lines-Covers note.text

parse_sections-Covers_example :
    InOrder 0 (length note.text) (spans (parse_sections note.text))
    × ((p : ℕ)
        → p < length note.text
        → Covers (spans (parse_sections note.text)) p
          ↔ (in_heading (split b'\n' note.text) 0 p ≡ false))
parse_sections-Covers_example = parse_sections-Covers note.text

parse_sections-NamesEnclosing_example :
    All (NamesEnclosing (split b'\n' note.text)) (parse_sections note.text)
parse_sections-NamesEnclosing_example = parse_sections-NamesEnclosing note.text

chunkers-IsAnchored_example :
    All (IsAnchored note) (whole_doc note)
    × All (IsAnchored note) (by_paragraph note)
    × All (IsAnchored note) (fixed_window (pos 2) (pos 1) note)
    × All (IsAnchored note) (by_section (pos 2) (pos 1) note)
chunkers-IsAnchored_example = chunkers-IsAnchored note (pos 2) (pos 1)

by_paragraph-InChunk_example : InChunk 5 (by_paragraph note)
by_paragraph-InChunk_example = by_paragraph-InChunk note 5 b's' refl (omega arith, omega arith)

outside_run : in_heading (split b'\n' note.text) 0 5 ≡ false
unfolding atx_heading split
outside_run = refl

by_section-InChunk_example : InChunk 5 (by_section (pos 2) (pos 1) note)
by_section-InChunk_example =
    by_section-InChunk note 5 b's' refl (omega arith, omega arith) (pos 2) (pos 1) (omega arith)
      outside_run
