-- ===== src/Heat/Peaks/Cover.antt =====
-- Every segment lies in a peak: extraction loses no part of the heatmap.
use attndb.Prelude.{
  ℕ, zero, suc, ◌+◌, ◌-◌, ◌≤◌, ◌<◌, ◌≡◌, refl, Bool, true, false, List, [], ◌∷◌, length, get_or,
  set, replicate, count_up, ◌==◌, arith, Bool-cases, inl, inr, Any, ◌⊎◌, ◌∙◌, length-replicate,
}
use attndb.Prelude.Sort.{sort_by-Any}
use attndb.Core.Spans.{InOrder}
use attndb.Core.Nth.{get_or_mono}
use attndb.Core.Floats.{Floats}
use attndb.Heat.Density.{Segment}
use attndb.Heat.Peaks.{seg_at, claim, peak_of, peaks_from, order_of, extract_peaks}
use attndb.Heat.Peaks.Free.{spans, left, right, grown-IsFree, length-claim}
use attndb.Heat.Peaks.Apart.{spans-seg_at, length-spans}

claim-claimed :
    (n lo i : ℕ) (claimed : List Bool)
    → get_or (claim n lo claimed) i true ≡ true
    → (get_or claimed i true ≡ true) ⊎ ((lo ≤ i) × (i < lo + n))
unfolding claim
claim-claimed zero lo i claimed h = inl h
claim-claimed (suc n) lo i claimed h = elim (claim-claimed n (suc lo) i (set claimed lo true) h) [
  | inl now ↦ set-claimed claimed lo i n now
  | inr later ↦ inr (omega arith, omega arith)
]
  where
    set-claimed :
        (c : List Bool) (j k m : ℕ)
        → get_or (set c j true) k true ≡ true
        → (get_or c k true ≡ true) ⊎ ((j ≤ k) × (k < j + suc m))
    set-claimed [] j k m e = inl e
    set-claimed (x ∷ c) zero zero m e = inr (omega arith, omega arith)
    set-claimed (x ∷ c) zero (suc k) m e = inl e
    set-claimed (x ∷ c) (suc j) zero m e = inl e
    set-claimed (x ∷ c) (suc j) (suc k) m e = elim (set-claimed c j k m e) [
      | inl old ↦ inl old
      | inr new ↦ inr (omega arith, omega arith)
    ]

replicate-unclaimed : (n i : ℕ) → i < n → get_or (replicate n false) i true ≡ false
replicate-unclaimed zero i h = absurd (omega arith)
replicate-unclaimed (suc n) zero h = refl
replicate-unclaimed (suc n) (suc i) h = replicate-unclaimed n i (omega arith)

count_up-Any : (n j i : ℕ) → j ≤ i → i < j + n → Any (λ k. k ≡ i) (count_up n j)
count_up-Any zero j i h l = absurd (omega arith)
count_up-Any (suc n) j i h l = elim (Bool-cases (j == i)) [
  | inl same ↦ inl (ground arith)
  | inr more ↦ inr (count_up-Any n (suc j) i (ground arith) (omega arith))
]

module _ (F : Floats) (segs : List (Segment F)) (fraction : F.F64) (top : ℕ)
    (o : InOrder 0 top (spans F segs)) where
  -- The peak holds segment `i`.
  abbrev pub HoldsSegment : ℕ → Segment F → Type 0
  HoldsSegment i s =
      (s.span.start ≤ (seg_at F segs i).span.start) × ((seg_at F segs i).span.end ≤ s.span.end)

  run-HoldsSegment :
      (lo hi i : ℕ)
      → lo ≤ i
      → i ≤ hi
      → hi < length segs
      → HoldsSegment i (peak_of F segs lo hi (seg_at F segs i).density)
  unfolding peak_of
  run-HoldsSegment lo hi i h k l =
      rw (← spans-seg_at F segs i, ← spans-seg_at F segs lo, ← spans-seg_at F segs hi)
        (
          (get_or_mono 0 top lo i (spans F segs) o h (omega (arith, length-spans F segs))).0,
          (get_or_mono 0 top i hi (spans F segs) o k (omega (arith, length-spans F segs))).1,
        )

  peaks_from-HoldsSegment :
      (order : List ℕ) (claimed : List Bool) (i : ℕ)
      → length claimed ≡ length segs
      → Any (λ k. k ≡ i) order
      → (get_or claimed i true ≡ true)
        ⊎ Any (HoldsSegment i) (peaks_from F segs fraction order claimed)
  unfolding peaks_from peak_of
  peaks_from-HoldsSegment [] claimed i n m = absurd m
  peaks_from-HoldsSegment (idx ∷ order) claimed i n m =
      elim (Bool-cases (get_or claimed idx true)) [
        | inl e ↦ rw e (elim m [
          | inl same ↦ inl (rw same at e)
          | inr later ↦ peaks_from-HoldsSegment order claimed i n later
        ])
        | inr e ↦
            let lo = left F segs fraction claimed idx in
            let hi = right F segs fraction claimed idx in
            let (free, l, r) = grown-IsFree F segs fraction claimed idx n e in
            let here = run-HoldsSegment lo hi in
            rw e (elim m [
              | inl same ↦ inr (inl (here i (omega arith) (omega arith) free.inside))
              | inr later ↦
                  elim (peaks_from-HoldsSegment order (claim (suc hi - lo) lo claimed) i
                    (length-claim (suc hi - lo) lo claimed ∙ n) later) [
                      | inl taken ↦ elim (claim-claimed (suc hi - lo) lo i claimed taken) [
                        | inl old ↦ inl old
                        | inr within ↦ inr (inl (here i within.0 (omega arith) free.inside))
                      ]
                      | inr rest ↦ inr (inr rest)
                    ]
            ])
      ]

  -- If the segments are in order, each one lies in a peak.
  pub extract_peaks-HoldsSegment :
      (i : ℕ) → i < length segs → Any (HoldsSegment i) (extract_peaks F segs fraction)
  unfolding extract_peaks order_of
  extract_peaks-HoldsSegment i h =
      elim (peaks_from-HoldsSegment (order_of F segs) (replicate (length segs) false) i
        (length-replicate (length segs) false)
        (sort_by-Any _ (λ k. k ≡ i) (count_up (length segs) 0)
          (count_up-Any (length segs) 0 i (omega arith) (omega arith)))) [
            | inl claimed ↦ absurd (cc (replicate-unclaimed (length segs) i h))
            | inr held ↦ held
          ]
