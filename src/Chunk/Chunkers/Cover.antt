-- ===== src/Chunk/Chunkers/Cover.antt =====
-- No text is lost: each printing byte of a document lies in a chunk.
use attndb.Prelude.{
  ℕ, ◌+◌, ◌-◌, ◌≤◌, ◌<◌, ◌≡◌, false, some, List, [], ◌∷◌, length, get_elem?, drop, leb, arith,
  Bool-cases, inl, inr, Any, Any-map, Any-append, get_elem?-drop, get_elem?-take, get_elem?-lt, ◌∙◌,
}
use attndb.Prelude.Int.{ℤ, pos, ◌≤ℤ◌}
use attndb.Prelude.Text.{Bytes, slice, split}
use attndb.Prelude.Text.Graphic.{IsGraphic, HasByte-get_elem?, trim_space-HasByte}
use attndb.Core.Spans.{Span, Holds, Covers}
use attndb.Core.Types.{Document, Chunk}
use attndb.Chunk.Token.{is_space, tokenize_offset}
use attndb.Chunk.Token.Runs.{tokenize_offset-Covers}
use attndb.Chunk.Window.Cover.{window-HoldsToken}
use attndb.Core.Nth.{Covers-get_or}
use attndb.Chunk.Paragraph.{split_blank_lines}
use attndb.Chunk.Paragraph.Cover.{split_blank_lines-Covers}
use attndb.Chunk.Section.{Section, parse_sections}
use attndb.Chunk.Section.Cover.{spans, in_heading, parse_sections-Covers}
use attndb.Chunk.Chunkers.{
  is_blank, paragraphs_from, by_paragraph, section_max, section_chunks, sections_chunks, by_section,
}

-- Some chunk holds position `p`.
abbrev pub InChunk : ℕ → List Chunk → Type 0
InChunk p = Any (λ c. Holds c.span p)

get_elem?-slice :
    (text : Bytes) (a b p : ℕ) {c : ℕ}
    → a ≤ p
    → p < b
    → get_elem? text p ≡ some c
    → get_elem? (slice text a b) (p - a) ≡ some c
get_elem?-slice text a b p h k g =
    let e : a + (p - a) ≡ p = omega arith in
    get_elem?-take (b - a) (p - a) (drop a text) (omega arith)
    ∙ (get_elem?-drop a (p - a) text ∙ rw e g)

module _ (d : Document) (p c : ℕ) (g : get_elem? d.text p ≡ some c) (graphic : IsGraphic c) where
  slice-not_blank : (sp : Span) → Holds sp p → is_blank (slice d.text sp.start sp.end) ≡ false
  unfolding is_blank
  slice-not_blank sp h =
      trim_space-HasByte c _ graphic
        (HasByte-get_elem? c (p - sp.start) _ (get_elem?-slice d.text sp.start sp.end p h.0 h.1 g))

  paragraphs_from-InChunk : (sps : List Span) → Covers sps p → InChunk p (paragraphs_from d sps)
  unfolding paragraphs_from
  paragraphs_from-InChunk [] v = v
  paragraphs_from-InChunk (sp ∷ sps) (inl h) = rw (slice-not_blank sp h) (inl h)
  paragraphs_from-InChunk (sp ∷ sps) (inr v) =
      elim (Bool-cases (is_blank (slice d.text sp.start sp.end))) [
        | inl e ↦ rw e (paragraphs_from-InChunk sps v)
        | inr e ↦ rw e (inr (paragraphs_from-InChunk sps v))
      ]

  -- Each printing byte of a document lies in a chunk of the paragraph chunker.
  pub by_paragraph-InChunk : InChunk p (by_paragraph d)
  unfolding by_paragraph
  by_paragraph-InChunk =
      paragraphs_from-InChunk (split_blank_lines d.text)
        ((split_blank_lines-Covers d.text).2 p c g (ground arith))

  module _ (max_tokens : ℕ) (size_pos : 0 < max_tokens) (overlap : ℤ)
      (nonneg : pos 0 ≤ℤ overlap) where
    section_chunks-InChunk :
        (sec : Section) → Holds sec.span p → InChunk p (section_chunks d max_tokens overlap sec)
    unfolding section_chunks is_space
    section_chunks-InChunk sec h =
        let body = slice d.text sec.span.start sec.span.end in
        let toks = tokenize_offset body sec.span.start in
        rw (slice-not_blank sec.span h) (elim (Bool-cases (leb (length toks) max_tokens)) [
          | inl e ↦ rw e (inl h)
          | inr e ↦
              let both = tokenize_offset-Covers body sec.span.start in
              let e' : sec.span.start + (p - sec.span.start) ≡ p = omega arith in
              let v =
                (both.1 (p - sec.span.start) c
                    (get_elem?-slice d.text sec.span.start sec.span.end p h.0 h.1 g)).1
                  (ground arith) in
              let (k, l, held) = Covers-get_or toks p (rw e' at v) in
              rw e (
                Any-map (λ ch m. (omega arith, omega arith)) _
                  ((window-HoldsToken d toks max_tokens sec.path size_pos overlap nonneg
                      sec.span.start (sec.span.start + length body) both.0).1
                    k l))
        ])

    sections_chunks-InChunk :
        (secs : List Section)
        → Covers (spans secs) p
        → InChunk p (sections_chunks d max_tokens overlap secs)
    unfolding sections_chunks
    sections_chunks-InChunk [] v = v
    sections_chunks-InChunk (sec ∷ secs) (inl h) =
        Any-append (λ ch. Holds ch.span p) (section_chunks d max_tokens overlap sec) _
          (inl (section_chunks-InChunk sec h))
    sections_chunks-InChunk (sec ∷ secs) (inr v) =
        Any-append (λ ch. Holds ch.span p) (section_chunks d max_tokens overlap sec) _
          (inr (sections_chunks-InChunk secs v))

  section_max_pos : (max_tokens : ℤ) → 0 < section_max max_tokens
  unfolding section_max
  section_max_pos max_tokens = ground arith

  -- Each printing byte of a document that stands in no heading line lies in a chunk of the section
  -- chunker, if the overlap is not negative.
  pub by_section-InChunk :
      (max_tokens overlap : ℤ)
      → pos 0 ≤ℤ overlap
      → in_heading (split b'\n' d.text) 0 p ≡ false
      → InChunk p (by_section max_tokens overlap d)
  unfolding by_section
  by_section-InChunk max_tokens overlap nonneg outside =
      sections_chunks-InChunk (section_max max_tokens) (section_max_pos max_tokens) overlap nonneg
        (parse_sections d.text)
        (((parse_sections-Covers d.text).1 p (get_elem?-lt d.text p g)).1 outside)
