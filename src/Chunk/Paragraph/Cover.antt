-- ===== src/Chunk/Paragraph/Cover.antt =====
-- The paragraphs of `splitBlankLines`: in order, apart, without a blank line inside, and holding
-- every byte that is no space, tab or newline.
use native.Mathlib.Numerals.{add-one}
use attndb.Prelude.{
  ℕ, zero, suc, ◌+◌, ◌≤◌, ◌<◌, ◌≡◌, refl, Bool, true, false, ◌||◌, none, some, List, [], ◌∷◌,
  length, get_elem?, drop, drop_step, ltb, ◌==◌, arith, Bool-cases, Option-cases, inl, inr, All,
}
use attndb.Prelude.Text.{Bytes}
use attndb.Core.Spans.{Span, Holds, InOrder, Covers, InOrder-weaken}
use attndb.Chunk.Paragraph.{blank_line, boundary, emit, split_from, split_blank_lines}

abbrev pub is_separator : ℕ → Bool
is_separator c = c == b'\n' || (c == b' ' || c == b'\t')

blank_line_progress :
    (s : Bytes) (j j' : ℕ) (rest : Bytes)
    → blank_line s j ≡ some (j', rest)
    → (j < j') × (j' + length rest ≡ j + length s)
unfolding blank_line
blank_line_progress [] j j' rest h = absurd (cc)
blank_line_progress (c ∷ s) j j' rest h = ground (arith, blank_line_progress s (j + 1) j' rest)

blank_line_skips :
    (s : Bytes) (j j' : ℕ) (rest : Bytes) (k c : ℕ)
    → blank_line s j ≡ some (j', rest)
    → get_elem? s k ≡ some c
    → is_separator c ≡ false
    → (m : ℕ) × (j + k ≡ j' + m) × (get_elem? rest m ≡ some c)
unfolding blank_line
blank_line_skips [] j j' rest k c h g e = absurd (cc)
blank_line_skips (a ∷ s) j j' rest zero c h g e = ground arith
blank_line_skips (a ∷ s) j j' rest (suc k) c h g e = elim (Bool-cases (a == b'\n')) [
  | inl x ↦ (k, ground arith, ground arith)
  | inr x ↦
      let (m, p, q) = blank_line_skips s (j + 1) j' rest k c (ground arith) g e in
      (m, omega arith, q)
]

blank_line_suffix :
    (w s : Bytes) (j j' : ℕ) (rest : Bytes)
    → blank_line s j ≡ some (j', rest)
    → drop j w ≡ s
    → drop j' w ≡ rest
unfolding blank_line
blank_line_suffix w [] j j' rest h e = absurd (cc)
blank_line_suffix w (c ∷ s) j j' rest h e =
    ground (arith, add-one j, drop_step j w e, blank_line_suffix w s (j + 1) j' rest)

boundary_newline :
    (c : ℕ) (s : Bytes) (i j : ℕ) (rest : Bytes)
    → boundary (c ∷ s) i ≡ some (j, rest)
    → (c ≡ b'\n') × (blank_line s (i + 1) ≡ some (j, rest))
unfolding boundary
boundary_newline c s i j rest h = ground arith

emit-InOrder :
    (start i j hi : ℕ) (spans : List Span)
    → start ≤ i
    → i ≤ j
    → InOrder j hi spans
    → InOrder start hi (emit start i spans)
unfolding emit
emit-InOrder start i j hi spans h k o = elim (Bool-cases (ltb start i)) [
  | inl e ↦ rw e (omega arith, ground arith, InOrder-weaken j i hi spans k o)
  | inr e ↦ rw e (InOrder-weaken j start hi spans (omega arith) o)
]

emit-Covers : (start i p : ℕ) (spans : List Span) → Covers spans p → Covers (emit start i spans) p
unfolding emit
emit-Covers start i p spans v = elim (Bool-cases (ltb start i)) [
  | inl e ↦ rw e (inr v)
  | inr e ↦ rw e v
]

emit-holds : (start i p : ℕ) (spans : List Span) → start ≤ p → p < i → Covers (emit start i spans) p
unfolding emit
emit-holds start i p spans h k = let e : ltb start i ≡ true = ground arith in rw e (inl (h, k))

split_from-InOrder :
    (fuel : ℕ) (text : Bytes) (i start hi : ℕ)
    → length text ≤ fuel
    → start ≤ i
    → i + length text ≡ hi
    → InOrder start hi (split_from fuel text i start)
unfolding split_from
split_from-InOrder fuel [] i start hi f h e =
    emit-InOrder start i hi hi [] h (omega arith) (omega arith)
split_from-InOrder zero (c ∷ s) i start hi f h e = absurd (omega arith)
split_from-InOrder (suc fuel) (c ∷ s) i start hi f h e = elim (Option-cases (boundary (c ∷ s) i)) [
  | inl x ↦
      rw (x, split_from)
        (split_from-InOrder fuel s (i + 1) start hi (omega arith) (omega arith) (omega arith))
  | inr ((j, rest), x) ↦
      let p = blank_line_progress s (i + 1) j rest (boundary_newline c s i j rest x).1 in
      rw (x, split_from)
        (emit-InOrder start i j hi _ h (omega arith)
          (split_from-InOrder fuel rest j j hi (omega arith) (omega arith) (omega arith)))
]

open-Covers :
    (fuel : ℕ) (text : Bytes) (i start p : ℕ)
    → length text ≤ fuel
    → start ≤ p
    → p < i
    → Covers (split_from fuel text i start) p
unfolding split_from
open-Covers fuel [] i start p f h k = emit-holds start i p [] h k
open-Covers zero (c ∷ s) i start p f h k = absurd (omega arith)
open-Covers (suc fuel) (c ∷ s) i start p f h k = elim (Option-cases (boundary (c ∷ s) i)) [
  | inl x ↦ rw (x, split_from) (open-Covers fuel s (i + 1) start p (omega arith) h (omega arith))
  | inr ((j, rest), x) ↦ rw (x, split_from) (emit-holds start i p _ h k)
]

split_from-Covers :
    (fuel : ℕ) (text : Bytes) (i start k c p : ℕ)
    → length text ≤ fuel
    → start ≤ i
    → get_elem? text k ≡ some c
    → is_separator c ≡ false
    → p ≡ i + k
    → Covers (split_from fuel text i start) p
unfolding split_from
split_from-Covers fuel [] i start k c p f h g e q = absurd (cc)
split_from-Covers zero (a ∷ s) i start k c p f h g e q = absurd (omega arith)
split_from-Covers (suc fuel) (a ∷ s) i start zero c p f h g e q =
    elim (Option-cases (boundary (a ∷ s) i)) [
      | inl x ↦
          rw (x, split_from)
            (open-Covers fuel s (i + 1) start p (omega arith) (omega arith) (omega arith))
      | inr ((j, rest), x) ↦ absurd (ground (arith, boundary_newline a s i j rest x))
    ]
split_from-Covers (suc fuel) (a ∷ s) i start (suc k) c p f h g e q =
    elim (Option-cases (boundary (a ∷ s) i)) [
      | inl x ↦
          rw (x, split_from)
            (split_from-Covers fuel s (i + 1) start k c p (omega arith) (omega arith) g e
              (omega arith))
      | inr ((j, rest), x) ↦
          let b = (boundary_newline a s i j rest x).1 in
          let (m, u, v) = blank_line_skips s (i + 1) j rest k c b g e in
          let n = blank_line_progress s (i + 1) j rest b in
          rw (x, split_from)
            (emit-Covers start i p _
              (split_from-Covers fuel rest j j m c p (omega arith) (omega arith) v e (omega arith)))
    ]

-- No blank line of the text begins inside the span.
abbrev pub Unbroken : Bytes → Span → Type 0
Unbroken w sp = (q : ℕ) → Holds sp q → boundary (drop q w) q ≡ none

emit-Unbroken :
    (w : Bytes) (start i : ℕ) (spans : List Span)
    → ((q : ℕ) → start ≤ q → q < i → boundary (drop q w) q ≡ none)
    → All (Unbroken w) spans
    → All (Unbroken w) (emit start i spans)
unfolding emit
emit-Unbroken w start i spans free all = elim (Bool-cases (ltb start i)) [
  | inl e ↦ rw e ((λ q h. free q h.0 h.1), all)
  | inr e ↦ rw e all
]

split_from-Unbroken :
    (w : Bytes) (fuel : ℕ) (text : Bytes) (i start : ℕ)
    → drop i w ≡ text
    → ((q : ℕ) → start ≤ q → q < i → boundary (drop q w) q ≡ none)
    → All (Unbroken w) (split_from fuel text i start)
unfolding split_from
split_from-Unbroken w fuel [] i start e free = emit-Unbroken w start i [] free tt
split_from-Unbroken w zero (c ∷ s) i start e free = tt
split_from-Unbroken w (suc fuel) (c ∷ s) i start e free = elim (Option-cases (boundary (c ∷ s) i)) [
  | inl x ↦
      rw (x, split_from)
        (split_from-Unbroken w fuel s (i + 1) start (rw (add-one i) (drop_step i w e)) (λ q h k.
          elim (Bool-cases (q == i)) [
            | inl same ↦ ground arith
            | inr less ↦ free q h (ground arith)
          ]))
  | inr ((j, rest), x) ↦
      let b = (boundary_newline c s i j rest x).1 in
      rw (x, split_from)
        (emit-Unbroken w start i _ free (
          split_from-Unbroken w fuel rest j j
            (blank_line_suffix w s (i + 1) j rest b (rw (add-one i) (drop_step i w e)))
            (λ q h k. absurd (omega arith))))
]

-- The paragraphs of a text are nonempty and in order and do not overlap, no blank line begins
-- inside one, and a byte that is no space, tab or newline lies in one.
pub split_blank_lines-Covers :
    (text : Bytes)
    → InOrder 0 (length text) (split_blank_lines text)
      × All (Unbroken text) (split_blank_lines text)
      × ((p c : ℕ)
          → get_elem? text p ≡ some c
          → is_separator c ≡ false
          → Covers (split_blank_lines text) p)
unfolding split_blank_lines
split_blank_lines-Covers text = (
  split_from-InOrder (length text) text 0 0 _ (omega arith) (omega arith) (omega arith),
  split_from-Unbroken text (length text) text 0 0 refl (λ q h k. absurd (omega arith)),
  λ p c g e.
      split_from-Covers (length text) text 0 0 p c p (omega arith) (omega arith) g e (omega arith),
)
