-- ===== src/Core/Spans.antt =====
-- `Span` of internal/core/types.go, a half-open range [start, end) of bytes.
use attndb.Prelude.{
  ℕ, ◌≤◌, ◌<◌, min, max, ◌≡◌, Bool, ◌&&◌, ltb, ◌↔◌, arith, List, [], ◌∷◌, Any, inl, inr,
}
use attndb.Prelude.Int.{ℤ, pos, sub_ℕ, ltb_ℤ}

pub record Span : Type 0 where
  pub start : ℕ
  pub end : ℕ

unfoldable pub len : Span → ℤ
len s = sub_ℕ s.end s.start

unfoldable pub overlaps : Span → Span → Bool
overlaps s o = ltb s.start o.end && ltb o.start s.end

unfoldable pub union : Span → Span → Span
union s o = record { start = min s.start o.start; end = max s.end o.end }

-- `p` is a position of the span.
abbrev pub Holds : Span → ℕ → Type 0
Holds s p = (s.start ≤ p) × (p < s.end)

-- Two spans share a position exactly when `overlaps` says so, if neither is empty.
pub overlaps_iff :
    (s o : Span)
    → s.start < s.end
    → o.start < o.end
    → (overlaps s o ≡ Bool.true) ↔ ((p : ℕ) × Holds s p × Holds o p)
unfolding overlaps
overlaps_iff s o hs ho =
    (λ e. (max s.start o.start, ground arith, ground arith), λ (p, a, b). ground arith)

-- The union holds both spans, and no other span that holds both is smaller.
pub union_least :
    (s o u : Span)
    → (u.start ≤ s.start) × (u.start ≤ o.start) × (s.end ≤ u.end) × (o.end ≤ u.end)
    → (u.start ≤ (union s o).start)
      × ((union s o).end ≤ u.end)
      × ((union s o).start ≤ s.start)
      × ((union s o).start ≤ o.start)
      × (s.end ≤ (union s o).end)
      × (o.end ≤ (union s o).end)
unfolding union
union_least s o u h = omega arith

pub len_pos : (s : Span) → (ltb_ℤ (pos 0) (len s) ≡ Bool.true) ↔ (s.start < s.end)
unfolding len
len_pos s = (λ h. ground arith, λ h. ground arith)

-- The spans lie in [lo, hi), from left to right, none is empty and no two overlap.
abbrev pub InOrder : ℕ → ℕ → List Span → Type 0
InOrder lo hi [] = lo ≤ hi
InOrder lo hi (s ∷ spans) = (lo ≤ s.start) × (s.start < s.end) × InOrder s.end hi spans

-- Some span holds `p`.
abbrev pub Covers : List Span → ℕ → Type 0
Covers spans p = Any (λ s. Holds s p) spans

pub InOrder-le : (lo hi : ℕ) (spans : List Span) → InOrder lo hi spans → lo ≤ hi
InOrder-le lo hi [] h = h
InOrder-le lo hi (s ∷ spans) (a, b, h) = omega (arith, InOrder-le s.end hi spans h)

pub InOrder-weaken :
    (lo lo' hi : ℕ) (spans : List Span) → lo' ≤ lo → InOrder lo hi spans → InOrder lo' hi spans
InOrder-weaken lo lo' hi [] h o = omega arith
InOrder-weaken lo lo' hi (s ∷ spans) h (a, b, o) = (omega arith, b, o)

pub InOrder-not_below :
    (lo hi p : ℕ) (spans : List Span) → InOrder lo hi spans → p < lo → Covers spans p → ⊥
InOrder-not_below lo hi p [] o h c = c
InOrder-not_below lo hi p (s ∷ spans) (a, b, o) h (inl c) = omega arith
InOrder-not_below lo hi p (s ∷ spans) (a, b, o) h (inr c) =
    InOrder-not_below s.end hi p spans o (omega arith) c

pub InOrder-not_above :
    (lo hi p : ℕ) (spans : List Span) → InOrder lo hi spans → hi ≤ p → Covers spans p → ⊥
InOrder-not_above lo hi p [] o h c = c
InOrder-not_above lo hi p (s ∷ spans) (a, b, o) h (inl c) =
    absurd (omega (arith, InOrder-le s.end hi spans o))
InOrder-not_above lo hi p (s ∷ spans) (a, b, o) h (inr c) = InOrder-not_above s.end hi p spans o h c

pub InOrder-widen :
    (lo hi hi' : ℕ) (spans : List Span) → hi ≤ hi' → InOrder lo hi spans → InOrder lo hi' spans
InOrder-widen lo hi hi' [] h o = omega arith
InOrder-widen lo hi hi' (s ∷ spans) h (a, b, o) = (a, b, InOrder-widen s.end hi hi' spans h o)
