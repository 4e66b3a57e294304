-- ===== src/Chunk/Section/Path.antt =====
-- The heading path of a section names the headings that enclose it.
use attndb.Prelude.{
  ℕ, ◌+◌, ◌≤◌, ◌≡◌, refl, ◌∙◌, sym, ap, true, false, Option, none, some, List, [], ◌∷◌, length,
  if◌then◌else◌, ltb, leb, arith, Bool-cases, Option-cases, inl, inr, All,
}
use attndb.Prelude.Text.{Bytes, split}
use attndb.Chunk.Section.{
  Head, Section, atx_heading, flush, path_of, pop, sections_from, parse_sections,
}

-- Of the headings read so far, the last first: those above `level` and above all that come later.
abbrev pub above : ℕ → List Head → List Head
above level [] = []
above level (h ∷ seen) = if ltb h.level level then h ∷ above h.level seen else above level seen

-- The last heading, and the earlier ones that are of a higher level than every later one.
abbrev pub enclosing : List Head → List Head
enclosing [] = []
enclosing (h ∷ seen) = h ∷ above h.level seen

pop-above : (l m : ℕ) (seen : List Head) → l ≤ m → pop l (above m seen) ≡ above l seen
unfolding pop
pop-above l m [] h = refl
pop-above l m (g ∷ seen) h = elim (Bool-cases (ltb g.level m)) [
  | inl e ↦ elim (Bool-cases (leb l g.level)) [
    | inl k ↦
        let n : ltb g.level l ≡ false = ground arith in
        rw (e, n, pop) (rw k (pop-above l g.level seen (ground arith)))
    | inr k ↦ let n : ltb g.level l ≡ true = ground arith in rw (e, n, pop) (rw k refl)
  ]
  | inr e ↦ let n : ltb g.level l ≡ false = ground arith in rw (e, n) (pop-above l m seen h)
]

pop-enclosing : (l : ℕ) (seen : List Head) → pop l (enclosing seen) ≡ above l seen
unfolding pop
pop-enclosing l [] = refl
pop-enclosing l (g ∷ seen) = elim (Bool-cases (leb l g.level)) [
  | inl k ↦
      let n : ltb g.level l ≡ false = ground arith in
      rw (k, n) (pop-above l g.level seen (ground arith))
  | inr k ↦ let n : ltb g.level l ≡ true = ground arith in rw (k, n) refl
]

abbrev pub seen_next : Option Head → List Head → List Head
seen_next none seen = seen
seen_next (some h) seen = h ∷ seen

-- The headings among the lines that start before position `p`, the last first; the first line
-- starts at `start`, and `seen` come before it.
abbrev pub headings_before : List Bytes → ℕ → ℕ → List Head → List Head
headings_before [] start p seen = seen
headings_before (line ∷ lines) start p seen =
    if ltb start p
    then headings_before lines (start + length line + 1) p (seen_next (atx_heading line) seen)
    else seen

headings_before_self :
    (lines : List Bytes) (start : ℕ) (seen : List Head)
    → headings_before lines start start seen ≡ seen
headings_before_self [] start seen = refl
headings_before_self (line ∷ lines) start seen =
    let n : ltb start start ≡ false = ground arith in rw n refl

abbrev pub NamesEnclosing : List Bytes → Section → Type 0
NamesEnclosing all sec = sec.path ≡ path_of (enclosing (headings_before all 0 sec.span.start []))

module _ (all : List Bytes) where
  flush-NamesEnclosing :
      (body_start end : ℕ) (stack : List Head) (secs : List Section)
      → stack ≡ enclosing (headings_before all 0 body_start [])
      → All (NamesEnclosing all) secs
      → All (NamesEnclosing all) (flush body_start (path_of stack) end secs)
  unfolding flush
  flush-NamesEnclosing body_start end stack secs k h = elim (Bool-cases (ltb body_start end)) [
    | inl e ↦ rw e (ap path_of k, h)
    | inr e ↦ rw e h
  ]

  sections_from-NamesEnclosing :
      (len : ℕ) (lines : List Bytes) (start : ℕ) (seen : List Head) (body_start : ℕ)
      → ((p : ℕ) → start ≤ p → headings_before all 0 p [] ≡ headings_before lines start p seen)
      → headings_before all 0 body_start [] ≡ seen
      → All (NamesEnclosing all) (sections_from len lines start (enclosing seen) body_start)
  unfolding sections_from
  sections_from-NamesEnclosing len [] start seen body_start j k =
      flush-NamesEnclosing body_start len (enclosing seen) [] (ap enclosing (sym k)) tt
  sections_from-NamesEnclosing len (line ∷ lines) start seen body_start j k =
      let next : ℕ = start + length line + 1 in
      let j' : (p : ℕ)
          → next ≤ p
          → headings_before all 0 p []
            ≡ headings_before lines next p (seen_next (atx_heading line) seen) =
        λ p h. let n : ltb start p ≡ true = ground arith in j p (omega arith) ∙ rw n refl in
      elim (Option-cases (atx_heading line)) [
        | inl x ↦
            rw (x, sections_from)
              (sections_from-NamesEnclosing len lines next seen body_start (rw x at j') k)
        | inr (hd, x) ↦
            let again : (p : ℕ)
                → next ≤ p
                → headings_before all 0 p [] ≡ headings_before lines next p (hd ∷ seen) =
              rw x at j' in
            rw (x, sections_from)
              (flush-NamesEnclosing body_start start (enclosing seen) _ (ap enclosing (sym k)) (
                rw (pop-enclosing hd.level seen) (
                  sections_from-NamesEnclosing len lines next (hd ∷ seen) next again
                    (again next (omega arith) ∙ headings_before_self lines next (hd ∷ seen)))))
      ]

-- The path of each section is the titles, outermost first, of the headings that enclose it: of the
-- headings in the lines before it, the last one and each one that is of a higher level than all
-- the headings between it and the section.
pub parse_sections-NamesEnclosing :
    (text : Bytes) → All (NamesEnclosing (split b'\n' text)) (parse_sections text)
unfolding parse_sections
parse_sections-NamesEnclosing text =
    sections_from-NamesEnclosing (split b'\n' text) (length text) (split b'\n' text) 0 [] 0
      (λ p h. refl) (headings_before_self (split b'\n' text) 0 [])
