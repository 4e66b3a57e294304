-- ===== src/Heat/Peaks/Apart.antt =====
-- The peaks of one document do not overlap.
use attndb.Prelude.{
  ℕ, zero, suc, ◌-◌, ◌≤◌, ◌<◌, ◌≡◌, refl, Bool, true, false, List, [], ◌∷◌, length, get_or,
  replicate, arith, Bool-cases, inl, inr, All, All-map, ◌⊎◌, ◌∙◌, length-replicate,
}
use attndb.Core.Spans.{Holds, InOrder}
use attndb.Core.Nth.{nowhere, get_or_apart}
use attndb.Core.Floats.{Floats}
use attndb.Heat.Density.{Segment}
use attndb.Heat.Peaks.{seg_at, claim, peak_of, peaks_from, order_of, extract_peaks}
use attndb.Heat.Peaks.Free.{
  spans, left, right, grown-IsFree, peaks_from-IsPeak, claim-unclaimed, length-claim,
}

module _ (F : Floats) where
  open F use {F64}

  abbrev pub Apart : List (Segment F) → Type 0
  Apart [] = Unit
  Apart (s ∷ rest) = All (λ t. (p : ℕ) → Holds s.span p → Holds t.span p → ⊥) rest × Apart rest

  pub spans-seg_at :
      (segs : List (Segment F)) (i : ℕ) → get_or (spans F segs) i nowhere ≡ (seg_at F segs i).span
  spans-seg_at [] i = refl
  spans-seg_at (s ∷ segs) zero = refl
  spans-seg_at (s ∷ segs) (suc i) = spans-seg_at segs i

  pub length-spans : (segs : List (Segment F)) → length (spans F segs) ≡ length segs
  length-spans [] = refl
  length-spans (s ∷ segs) = omega (arith, length-spans segs)

  module _ (segs : List (Segment F)) (fraction : F64) (top : ℕ)
      (o : InOrder 0 top (spans F segs)) where
    seg_at_apart :
        (i k : ℕ)
        → i < k
        → k < length segs
        → (seg_at F segs i).span.end ≤ (seg_at F segs k).span.start
    seg_at_apart i k h l =
        rw (← spans-seg_at segs i, ← spans-seg_at segs k)
          (get_or_apart 0 top i k (spans F segs) o h (rw (length-spans segs) l))

    -- Two runs of segments of which none is in both are apart, and so are their spans.
    runs_apart :
        (lo hi lo' hi' p : ℕ)
        → lo ≤ hi
        → hi < length segs
        → lo' ≤ hi'
        → hi' < length segs
        → ((k : ℕ) → lo' ≤ k → k ≤ hi' → (k < lo) ⊎ (suc hi ≤ k))
        → (seg_at F segs lo).span.start ≤ p
        → p < (seg_at F segs hi).span.end
        → (seg_at F segs lo').span.start ≤ p
        → p < (seg_at F segs hi').span.end
        → ⊥
    runs_apart lo hi lo' hi' p f h f' h' free a b a' b' = elim (free hi' f' (omega arith)) [
      | inl below ↦ absurd (omega (arith, seg_at_apart hi' lo below (omega arith)))
      | inr over ↦ elim (free lo' (omega arith) f') [
        | inl under ↦ absurd (omega (arith, free lo (omega arith) (omega arith)))
        | inr past ↦ absurd (omega (arith, seg_at_apart hi lo' past (omega arith)))
      ]
    ]

    peaks_from-Apart :
        (order : List ℕ) (claimed : List Bool)
        → length claimed ≡ length segs
        → Apart (peaks_from F segs fraction order claimed)
    unfolding peaks_from peak_of
    peaks_from-Apart [] claimed n = tt
    peaks_from-Apart (idx ∷ order) claimed n = elim (Bool-cases (get_or claimed idx true)) [
      | inl e ↦ rw e (peaks_from-Apart order claimed n)
      | inr e ↦
          let lo = left F segs fraction claimed idx in
          let hi = right F segs fraction claimed idx in
          let run = suc hi - lo in
          let n' = length-claim run lo claimed ∙ n in
          let free = (grown-IsFree F segs fraction claimed idx n e).0 in
          rw e (
            All-map
                (λ t (lo', hi', free', at) p h h'.
                  runs_apart lo hi lo' hi' p free.forward free.inside free'.forward free'.inside
                    (λ k a b. omega (
                      arith,
                      (claim-unclaimed run lo k claimed (free'.unclaimed k a b)).1,
                      free.forward,
                    ))
                    h.0 h.1 (rw at at h').0 (rw at at h').1)
                (peaks_from F segs fraction order (claim run lo claimed))
                (peaks_from-IsPeak F segs fraction order (claim run lo claimed) n'),
            peaks_from-Apart order (claim run lo claimed) n',
          )
    ]

    -- If the segments are in order, no two of the peaks share a position.
    pub extract_peaks-Apart : Apart (extract_peaks F segs fraction)
    unfolding extract_peaks
    extract_peaks-Apart =
        peaks_from-Apart (order_of F segs) (replicate (length segs) false)
          (length-replicate (length segs) false)
