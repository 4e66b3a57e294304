-- ===== src/Chunk/Chunkers/Anchor.antt =====
-- Each chunk is a slice of its document: its text is the bytes of its span.
use attndb.Prelude.{
  ℕ, ◌+◌, ◌-◌, ◌≤◌, ◌<◌, ◌≡◌, refl, List, [], ◌∷◌, length, drop, leb, arith, Bool-cases, inl, inr,
  All, All-map, All-append, length-take, length-drop, take_all, sym,
}
use attndb.Prelude.Int.{ℤ}
use attndb.Prelude.Text.{Bytes, slice}
use attndb.Core.Spans.{Span, InOrder, InOrder-le, InOrder-widen}
use attndb.Core.Types.{Document, Chunk}
use attndb.Chunk.Token.{tokenize, tokenize_offset}
use attndb.Chunk.Token.Runs.{tokenize_offset-Covers}
use attndb.Chunk.Window.{window_span, window_chunk, window}
use attndb.Chunk.Window.Cover.{window-IsWindow}
use attndb.Core.Nth.{get_or-InOrder, get_or_mono}
use attndb.Chunk.Paragraph.{split_blank_lines}
use attndb.Chunk.Paragraph.Cover.{split_blank_lines-Covers}
use attndb.Chunk.Section.{Section, parse_sections}
use attndb.Chunk.Section.Cover.{spans, parse_sections-Covers}
use attndb.Chunk.Chunkers.{
  is_blank, whole_doc, paragraphs_from, by_paragraph, section_max, section_chunks, sections_chunks,
  by_section, fixed_window, window_size, window_overlap,
}

-- The chunk belongs to the document, its span lies in the document's text, and its text is what
-- stands there.
pub record IsAnchored (d : Document) (c : Chunk) : Type 0 where
  pub of_doc : c.doc_id ≡ d.id
  pub forward : c.span.start ≤ c.span.end
  pub inside : c.span.end ≤ length d.text
  pub sliced : c.text ≡ slice d.text c.span.start c.span.end

length-slice : (text : Bytes) (a b : ℕ) → a ≤ b → b ≤ length text → length (slice text a b) ≡ b - a
length-slice text a b h k = omega (arith, length-take (b - a) (drop a text), length-drop a text)

module _ (d : Document) where
  window-IsAnchored :
      (toks : List Span) (lo : ℕ)
      → InOrder lo (length d.text) toks
      → (size : ℕ) → 0 < size
      → (overlap : ℤ) (path : List Bytes) → All (IsAnchored d) (window d toks size overlap path)
  window-IsAnchored toks lo o size size_pos overlap path =
      All-map
        (λ c (i, j, i_lt, j_le, _, e). rw e (
          unfold window_chunk window_span in
          record {
            of_doc = refl;
            forward = omega (
              arith,
              get_or_mono lo (length d.text) i (j - 1) toks o (omega arith) (omega arith),
              get_or-InOrder lo (length d.text) i toks o (omega arith),
            );
            inside = omega (arith, get_or-InOrder lo (length d.text) (j - 1) toks o (omega arith));
            sliced = refl;
          }))
        (window d toks size overlap path) (window-IsWindow d toks size path size_pos overlap)

  paragraphs_from-IsAnchored :
      (sps : List Span) (lo : ℕ)
      → InOrder lo (length d.text) sps
      → All (IsAnchored d) (paragraphs_from d sps)
  unfolding paragraphs_from
  paragraphs_from-IsAnchored [] lo o = tt
  paragraphs_from-IsAnchored (sp ∷ sps) lo (a, b, o) =
      let rest = paragraphs_from-IsAnchored sps sp.end o in
      elim (Bool-cases (is_blank (slice d.text sp.start sp.end))) [
        | inl e ↦ rw e rest
        | inr e ↦ rw e (
          record {
            of_doc = refl;
            forward = omega arith;
            inside = InOrder-le sp.end (length d.text) sps o;
            sliced = refl;
          },
          rest,
        )
      ]

  section_chunks-IsAnchored :
      (max_tokens : ℕ)
      → 0 < max_tokens
      → (overlap : ℤ) (sec : Section) → sec.span.start < sec.span.end
      → sec.span.end ≤ length d.text
      → All (IsAnchored d) (section_chunks d max_tokens overlap sec)
  unfolding section_chunks
  section_chunks-IsAnchored max_tokens size_pos overlap sec h k =
      let body = slice d.text sec.span.start sec.span.end in
      let toks = tokenize_offset body sec.span.start in
      let n : sec.span.start + length body ≤ length d.text =
        omega (arith, length-slice d.text sec.span.start sec.span.end) in
      elim (Bool-cases (is_blank body)) [
        | inl x ↦ rw x tt
        | inr x ↦ elim (Bool-cases (leb (length toks) max_tokens)) [
          | inl e ↦
              rw (x, e)
                (record { of_doc = refl; forward = omega arith; inside = k; sliced = refl }, tt)
          | inr e ↦
              rw (x, e)
                (window-IsAnchored toks sec.span.start
                  (InOrder-widen _ _ _ _ n (tokenize_offset-Covers body sec.span.start).0)
                  max_tokens size_pos overlap sec.path)
        ]
      ]

  sections_chunks-IsAnchored :
      (max_tokens : ℕ)
      → 0 < max_tokens
      → (overlap : ℤ) (secs : List Section) (lo : ℕ) → InOrder lo (length d.text) (spans secs)
      → All (IsAnchored d) (sections_chunks d max_tokens overlap secs)
  unfolding sections_chunks
  sections_chunks-IsAnchored max_tokens size_pos overlap [] lo o = tt
  sections_chunks-IsAnchored max_tokens size_pos overlap (sec ∷ secs) lo (a, b, o) =
      All-append (IsAnchored d) (section_chunks d max_tokens overlap sec) _
        (section_chunks-IsAnchored max_tokens size_pos overlap sec b
          (InOrder-le sec.span.end (length d.text) (spans secs) o))
        (sections_chunks-IsAnchored max_tokens size_pos overlap secs sec.span.end o)

  section_max_pos : (max_tokens : ℤ) → 0 < section_max max_tokens
  unfolding section_max
  section_max_pos max_tokens = ground arith

  window_size_pos : (size : ℤ) → 0 < window_size size
  unfolding window_size
  window_size_pos size = ground arith

  -- Whatever their arguments, the four chunkers make chunks that belong to the document, lie in its
  -- text, and hold as text what stands there: no slice is taken out of range.
  pub chunkers-IsAnchored :
      (m n : ℤ)
      → All (IsAnchored d) (whole_doc d)
        × All (IsAnchored d) (by_paragraph d)
        × All (IsAnchored d) (fixed_window m n d)
        × All (IsAnchored d) (by_section m n d)
  unfolding whole_doc by_paragraph fixed_window by_section tokenize
  chunkers-IsAnchored m n = (
    (
      record {
        of_doc = refl;
        forward = omega arith;
        inside = omega arith;
        sliced =
            let e : length d.text - 0 ≡ length d.text = omega arith in rw e (sym (take_all d.text));
      },
      tt,
    ),
    paragraphs_from-IsAnchored (split_blank_lines d.text) 0 (split_blank_lines-Covers d.text).0,
    window-IsAnchored (tokenize_offset d.text 0) 0
        (InOrder-widen _ _ _ _ (omega arith) (tokenize_offset-Covers d.text 0).0) (window_size m)
        (window_size_pos m) (window_overlap (window_size m) n) [],
    sections_chunks-IsAnchored (section_max m) (section_max_pos m) n (parse_sections d.text) 0
        (parse_sections-Covers d.text).0,
  )
