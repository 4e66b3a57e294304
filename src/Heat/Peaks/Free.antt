-- ===== src/Heat/Peaks/Free.antt =====
-- Each peak is a run of segments that were not claimed before.
use attndb.Prelude.{
  ℕ, zero, suc, ◌+◌, ◌-◌, ◌≤◌, ◌<◌, ◌≡◌, refl, Bool, true, false, List, [], ◌∷◌, length, map, leb,
  ◌==◌, get_or, set, arith, Bool-cases, inl, inr, All, All-map, ◌⊎◌, ◌≢◌, ◌∙◌, length-set,
}
use attndb.Core.Spans.{Span}
use attndb.Core.Floats.{Floats}
use attndb.Heat.Density.{Segment}
use attndb.Heat.Peaks.{seg_at, grow_left, grow_right, claim, peak_of, peaks_from}

pub set-unclaimed :
    (claimed : List Bool) (i k : ℕ)
    → get_or (set claimed i true) k true ≡ false
    → (get_or claimed k true ≡ false) × (k ≢ i)
set-unclaimed [] i k h = absurd (cc)
set-unclaimed (c ∷ claimed) zero zero h = absurd (cc)
set-unclaimed (c ∷ claimed) zero (suc k) h = (h, omega arith)
set-unclaimed (c ∷ claimed) (suc i) zero h = (h, omega arith)
set-unclaimed (c ∷ claimed) (suc i) (suc k) h =
    let both = set-unclaimed claimed i k h in (both.0, omega (arith, both.1))

-- What is unclaimed after `claim` was so before, and is none of what was claimed.
pub claim-unclaimed :
    (n lo k : ℕ) (claimed : List Bool)
    → get_or (claim n lo claimed) k true ≡ false
    → (get_or claimed k true ≡ false) × ((k < lo) ⊎ (lo + n ≤ k))
unfolding claim
claim-unclaimed zero lo k claimed h = (h, omega arith)
claim-unclaimed (suc n) lo k claimed h =
    let later = claim-unclaimed n (suc lo) k (set claimed lo true) h in
    let now = set-unclaimed claimed lo k later.0 in (now.0, omega (arith, now.1, later.1))

pub length-claim : (n lo : ℕ) (claimed : List Bool) → length (claim n lo claimed) ≡ length claimed
unfolding claim
length-claim zero lo claimed = refl
length-claim (suc n) lo claimed =
    length-claim n (suc lo) (set claimed lo true) ∙ length-set claimed lo true

pub unclaimed-lt :
    (claimed : List Bool) (i : ℕ) → get_or claimed i true ≡ false → i < length claimed
unclaimed-lt [] i h = absurd (cc)
unclaimed-lt (c ∷ claimed) zero h = omega arith
unclaimed-lt (c ∷ claimed) (suc i) h = omega (arith, unclaimed-lt claimed i h)

module _ (F : Floats) where
  open F use {F64}

  abbrev pub spans : List (Segment F) → List Span
  spans = map (λ (s : Segment F). s.span)

  -- The segments `lo` to `hi` are there, and none of them is claimed.
  pub record IsFree (segs : List (Segment F)) (claimed : List Bool) (lo hi : ℕ) : Type 0 where
    pub forward : lo ≤ hi
    pub inside : hi < length segs
    pub unclaimed : (k : ℕ) → lo ≤ k → k ≤ hi → get_or claimed k true ≡ false

  grow_left-free :
      (segs : List (Segment F)) (claimed : List Bool) (thr : F64) (idx k : ℕ)
      → get_or claimed idx true ≡ false
      → grow_left F segs claimed thr idx ≤ k
      → k ≤ idx
      → get_or claimed k true ≡ false
  unfolding grow_left
  grow_left-free segs claimed thr zero k c h l = let e : k ≡ zero = omega arith in rw e c
  grow_left-free segs claimed thr (suc i) k c h l = elim (Bool-cases (k == suc i)) [
    | inl same ↦ ground arith
    | inr less ↦ ground (arith, grow_left-free segs claimed thr i k)
  ]

  grow_left-le :
      (segs : List (Segment F)) (claimed : List Bool) (thr : F64) (idx : ℕ)
      → grow_left F segs claimed thr idx ≤ idx
  unfolding grow_left
  grow_left-le segs claimed thr zero = omega arith
  grow_left-le segs claimed thr (suc i) = ground (arith, grow_left-le segs claimed thr i)

  grow_right-le :
      (fuel : ℕ) (segs : List (Segment F)) (claimed : List Bool) (thr : F64) (idx : ℕ)
      → idx < length segs
      → (idx ≤ grow_right F fuel segs claimed thr idx)
        × (grow_right F fuel segs claimed thr idx < length segs)
  unfolding grow_right
  grow_right-le zero segs claimed thr idx h = (omega arith, h)
  grow_right-le (suc fuel) segs claimed thr idx h =
      ground (arith, grow_right-le fuel segs claimed thr (suc idx))

  grow_right-free :
      (fuel : ℕ) (segs : List (Segment F)) (claimed : List Bool) (thr : F64) (idx k : ℕ)
      → get_or claimed idx true ≡ false
      → idx ≤ k
      → k ≤ grow_right F fuel segs claimed thr idx
      → get_or claimed k true ≡ false
  unfolding grow_right
  grow_right-free zero segs claimed thr idx k c h l = let e : k ≡ idx = omega arith in rw e c
  grow_right-free (suc fuel) segs claimed thr idx k c h l = elim (Bool-cases (k == idx)) [
    | inl same ↦ ground arith
    | inr more ↦ ground (arith, grow_right-free fuel segs claimed thr (suc idx) k)
  ]

  -- The segment is the span from a first to a last segment that are free.
  abbrev pub IsPeak : List (Segment F) → List Bool → Segment F → Type 0
  IsPeak segs claimed s =
      (lo : ℕ) × (hi : ℕ) × IsFree segs claimed lo hi
      × (s.span ≡ (peak_of F segs lo hi s.density).span)

  module _ (segs : List (Segment F)) (fraction : F64) where
    abbrev pub left : List Bool → ℕ → ℕ
    left claimed idx = grow_left F segs claimed (F.mul64 fraction (seg_at F segs idx).density) idx

    abbrev pub right : List Bool → ℕ → ℕ
    right claimed idx =
        grow_right F (length segs) segs claimed (F.mul64 fraction (seg_at F segs idx).density) idx

    pub grown-IsFree :
        (claimed : List Bool) (idx : ℕ)
        → length claimed ≡ length segs
        → get_or claimed idx true ≡ false
        → IsFree segs claimed (left claimed idx) (right claimed idx)
          × (left claimed idx ≤ idx)
          × (idx ≤ right claimed idx)
    grown-IsFree claimed idx n c =
        let thr = F.mul64 fraction (seg_at F segs idx).density in
        let l = grow_left-le segs claimed thr idx in
        let r =
          grow_right-le (length segs) segs claimed thr idx
            (rw (← n) (unclaimed-lt claimed idx c)) in
        (
          record {
            forward = omega arith;
            inside = r.1;
            unclaimed = λ k h h'. elim (Bool-cases (leb k idx)) [
              | inl at_left ↦ grow_left-free segs claimed thr idx k c h (ground arith)
              | inr at_right ↦
                  grow_right-free (length segs) segs claimed thr idx k c (ground arith) h'
            ];
          },
          l,
          r.0,
        )

    pub IsPeak-claim :
        (n lo : ℕ) (claimed : List Bool) (peaks : List (Segment F))
        → All (IsPeak segs (claim n lo claimed)) peaks
        → All (IsPeak segs claimed) peaks
    IsPeak-claim n lo claimed peaks =
        All-map
          (λ s (a, b, free, e). (
            a,
            b,
            record {
              forward = free.forward;
              inside = free.inside;
              unclaimed = λ k h h'. (claim-unclaimed n lo k claimed (free.unclaimed k h h')).0;
            },
            e,
          ))
          peaks

    pub peaks_from-IsPeak :
        (order : List ℕ) (claimed : List Bool)
        → length claimed ≡ length segs
        → All (IsPeak segs claimed) (peaks_from F segs fraction order claimed)
    unfolding peaks_from peak_of
    peaks_from-IsPeak [] claimed n = tt
    peaks_from-IsPeak (idx ∷ order) claimed n = elim (Bool-cases (get_or claimed idx true)) [
      | inl e ↦ rw e (peaks_from-IsPeak order claimed n)
      | inr e ↦
          let claimed' =
            claim (suc (right claimed idx) - left claimed idx) (left claimed idx) claimed in
          rw e (
            (left claimed idx, right claimed idx, (grown-IsFree claimed idx n e).0, refl),
            IsPeak-claim (suc (right claimed idx) - left claimed idx) (left claimed idx) claimed _ (
                peaks_from-IsPeak order claimed' (
                  length-claim (suc (right claimed idx) - left claimed idx) (left claimed idx)
                    claimed
                  ∙ n)),
          )
    ]
