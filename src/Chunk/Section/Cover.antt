-- ===== src/Chunk/Section/Cover.antt =====
-- The sections of `parseSections` lie in the text from left to right and hold exactly the lines
-- that are no headings.
use attndb.Prelude.{
  ℕ, ◌+◌, ◌≤◌, ◌<◌, ◌≡◌, refl, Bool, true, false, none, some, List, ◌↔◌, min, [], ◌∷◌, length, map,
  if◌then◌else◌, ltb, arith, Bool-cases, Option-cases, inl, inr,
}
use attndb.Prelude.Text.{Bytes, split}
use attndb.Core.Spans.{Span, InOrder, Covers, InOrder-weaken, InOrder-not_below}
use attndb.Chunk.Section.{
  Head, Section, atx_heading, flush, path_of, pop, sections_from, parse_sections,
}

abbrev pub spans : List Section → List Span
spans = map (λ (s : Section). s.span)

-- The lines with a newline behind each.
total : List Bytes → ℕ
total [] = 0
total (line ∷ lines) = length line + 1 + total lines

total-split : (sep : ℕ) (text : Bytes) → total (split sep text) ≡ length text + 1
unfolding total split
total-split sep [] = refl
total-split sep (c ∷ s) = ground (arith, total-split sep s)

-- Whether the line that holds position `p` is a heading; the first line starts at `start`.
abbrev pub in_heading : List Bytes → ℕ → ℕ → Bool
in_heading [] start p = false
in_heading (line ∷ lines) start p =
    if ltb p (start + length line + 1)
    then elim (atx_heading line) [ none ↦ false | some _ ↦ true ]
    else in_heading lines (start + length line + 1) p

module _ (path : List Bytes) where
  flush-InOrder :
      (lo body_start end hi : ℕ) (secs : List Section)
      → lo ≤ body_start
      → lo ≤ end
      → InOrder end hi (spans secs)
      → InOrder lo hi (spans (flush body_start path end secs))
  unfolding flush
  flush-InOrder lo body_start end hi secs h k o = elim (Bool-cases (ltb body_start end)) [
    | inl e ↦ rw e (h, ground arith, o)
    | inr e ↦ rw e (InOrder-weaken end lo hi (spans secs) k o)
  ]

  flush-Covers :
      (body_start end p : ℕ) (secs : List Section)
      → Covers (spans secs) p
      → Covers (spans (flush body_start path end secs)) p
  unfolding flush
  flush-Covers body_start end p secs v = elim (Bool-cases (ltb body_start end)) [
    | inl e ↦ rw e (inr v)
    | inr e ↦ rw e v
  ]

  flush-holds :
      (body_start end p : ℕ) (secs : List Section)
      → body_start ≤ p
      → p < end
      → Covers (spans (flush body_start path end secs)) p
  unfolding flush
  flush-holds body_start end p secs h k =
      let e : ltb body_start end ≡ true = ground arith in rw e (inl (h, k))

  Covers-flush :
      (body_start end p : ℕ) (secs : List Section)
      → end ≤ p
      → Covers (spans (flush body_start path end secs)) p
      → Covers (spans secs) p
  unfolding flush
  Covers-flush body_start end p secs h v = elim (Bool-cases (ltb body_start end)) [
    | inl e ↦ elim (rw e at v) [ inl held ↦ absurd (omega arith) | inr rest ↦ rest ]
    | inr e ↦ rw e at v
  ]

module _ (len : ℕ) where
  sections_from-InOrder :
      (lines : List Bytes) (start lo : ℕ) (stack : List Head) (body_start : ℕ)
      → lo ≤ body_start
      → lo ≤ len
      → lo ≤ start
      → start + total lines ≡ len + 1
      → InOrder lo len (spans (sections_from len lines start stack body_start))
  unfolding sections_from total
  sections_from-InOrder [] start lo stack body_start h k n t =
      flush-InOrder (path_of stack) lo body_start len len [] h k (omega arith)
  sections_from-InOrder (line ∷ lines) start lo stack body_start h k n t =
      elim (Option-cases (atx_heading line)) [
        | inl x ↦
            rw (x, sections_from)
              (sections_from-InOrder lines (start + length line + 1) lo stack body_start h k
                (omega arith) (omega arith))
        | inr (hd, x) ↦
            rw (x, sections_from)
              (flush-InOrder (path_of stack) lo body_start start len _ h n (
                sections_from-InOrder lines (start + length line + 1) start
                  (hd ∷ pop hd.level stack) (start + length line + 1) (omega arith) (omega arith)
                  (omega arith) (omega arith)))
      ]

  open-Covers :
      (lines : List Bytes) (start : ℕ) (stack : List Head) (body_start p : ℕ)
      → body_start ≤ p
      → p < start
      → p < len
      → start + total lines ≡ len + 1
      → Covers (spans (sections_from len lines start stack body_start)) p
  unfolding sections_from total
  open-Covers [] start stack body_start p h k l t =
      flush-holds (path_of stack) body_start len p [] h l
  open-Covers (line ∷ lines) start stack body_start p h k l t =
      elim (Option-cases (atx_heading line)) [
        | inl x ↦
            rw (x, sections_from)
              (open-Covers lines (start + length line + 1) stack body_start p h (omega arith) l
                (omega arith))
        | inr (hd, x) ↦ rw (x, sections_from) (flush-holds (path_of stack) body_start start p _ h k)
      ]

  sections_from-Covers :
      (lines : List Bytes) (start : ℕ) (stack : List Head) (body_start p : ℕ)
      → body_start ≤ start
      → start ≤ p
      → p < len
      → start + total lines ≡ len + 1
      → Covers (spans (sections_from len lines start stack body_start)) p
        ↔ (in_heading lines start p ≡ false)
  unfolding sections_from total
  sections_from-Covers [] start stack body_start p b h l t = absurd (omega arith)
  sections_from-Covers (line ∷ lines) start stack body_start p b h l t =
      let next : ℕ = start + length line + 1 in
      elim (Option-cases (atx_heading line)) [
        | inl x ↦ elim (Bool-cases (ltb p (start + length line + 1))) [
          | inl here ↦
              rw (x, here, sections_from)
                (
                  λ v. refl,
                  λ e.
                      open-Covers lines next stack body_start p (omega arith) (ground arith) l
                        (omega arith),
                )
          | inr past ↦
              rw (x, past, sections_from)
                (sections_from-Covers lines next stack body_start p (omega arith) (ground arith) l
                  (omega arith))
        ]
        | inr (hd, x) ↦
            let stack' : List Head = hd ∷ pop hd.level stack in
            elim (Bool-cases (ltb p (start + length line + 1))) [
              | inl here ↦
                  rw (x, here, sections_from)
                    (
                      λ v. absurd (
                          InOrder-not_below (min next len) len p _
                            (sections_from-InOrder lines next (min next len) stack' next
                              (omega arith) (omega arith) (omega arith) (omega arith))
                            (ground arith) (Covers-flush (path_of stack) body_start start p _ h v)),
                      λ e. absurd (cc),
                    )
              | inr past ↦
                  let both =
                    sections_from-Covers lines next stack' next p (omega arith) (ground arith) l
                      (omega arith) in
                  rw (x, past, sections_from)
                    (
                      λ v. both.0 (Covers-flush (path_of stack) body_start start p _ h v),
                      λ e. flush-Covers (path_of stack) body_start start p _ (both.1 e),
                    )
            ]
      ]

-- The sections of a text are nonempty and in order and do not overlap, and a byte of the text lies
-- in a section exactly when the line that holds it is no heading.
pub parse_sections-Covers :
    (text : Bytes)
    → InOrder 0 (length text) (spans (parse_sections text))
      × ((p : ℕ)
          → p < length text
          → Covers (spans (parse_sections text)) p ↔ (in_heading (split b'\n' text) 0 p ≡ false))
unfolding parse_sections
parse_sections-Covers text = (
  sections_from-InOrder (length text) (split b'\n' text) 0 0 [] 0 (omega arith) (omega arith)
      (omega arith) (omega (arith, total-split b'\n' text)),
  λ p h.
      sections_from-Covers (length text) (split b'\n' text) 0 [] 0 p (omega arith) (omega arith) h
        (omega (arith, total-split b'\n' text)),
)
