-- ===== src/Heat/Peaks.antt =====
-- `extractPeaks` of internal/heat/heat.go: non-max suppression over the segments.
pub mod Free
pub mod Apart
pub mod Cover
use attndb.Prelude.{
  ℕ, zero, suc, ◌+◌, ◌-◌, ◌≤◌, ◌<◌, ◌≡◌, refl, Bool, true, false, not, ◌&&◌, Option, none, some,
  List, [], ◌∷◌, length, map, if◌then◌else◌, ltb, leb, ◌==◌, get_or, set, replicate, count_up,
}
use attndb.Prelude.Sort.{sort_by}
use attndb.Core.Spans.{Span}
use attndb.Core.Floats.{Floats}
use attndb.Heat.Density.{Segment}

-- for k := lo; k <= hi; k++ { claimed[k] = true }, with `n` rounds left
unfoldable pub claim : ℕ → ℕ → List Bool → List Bool
claim zero k claimed = claimed
claim (suc n) k claimed = claim n (suc k) (set claimed k true)

module _ (F : Floats) where
  open F use {F64, zero64, mul64, lt64, eq64}

  abbrev nothing : Segment F
  nothing = record { span = record { start = 0; end = 0 }; density = zero64 }

  abbrev pub seg_at : List (Segment F) → ℕ → Segment F
  seg_at segs i = get_or segs i nothing

  -- density >= thr
  reaches : F64 → Segment F → Bool
  reaches thr s = (if lt64 thr s.density then true else eq64 thr s.density)

  -- for lo-1 >= 0 && !claimed[lo-1] && segs[lo-1].span.End == segs[lo].span.Start && … { lo-- }
  unfoldable pub grow_left : List (Segment F) → List Bool → F64 → ℕ → ℕ
  unfolding reaches
  grow_left segs claimed thr zero = zero
  grow_left segs claimed thr (suc k) =
      let further = grow_left segs claimed thr k in
      if not (get_or claimed k true)
        && ((seg_at segs k).span.end == (seg_at segs (suc k)).span.start)
        && reaches thr (seg_at segs k)
      then further
      else suc k

  -- The same to the right; the fuel is the number of segments, and `hi` stays below it.
  unfoldable pub grow_right : ℕ → List (Segment F) → List Bool → F64 → ℕ → ℕ
  unfolding reaches
  grow_right zero segs claimed thr hi = hi
  grow_right (suc fuel) segs claimed thr hi =
      let further = grow_right fuel segs claimed thr (suc hi) in
      if ltb (suc hi) (length segs)
        && not (get_or claimed (suc hi) true)
        && ((seg_at segs hi).span.end == (seg_at segs (suc hi)).span.start)
        && reaches thr (seg_at segs (suc hi))
      then further
      else hi

  unfoldable pub peak_of : List (Segment F) → ℕ → ℕ → F64 → Segment F
  peak_of segs lo hi max_d = record {
    span = record { start = (seg_at segs lo).span.start; end = (seg_at segs hi).span.end };
    density = max_d;
  }

  unfoldable pub peaks_from : List (Segment F) → F64 → List ℕ → List Bool → List (Segment F)
  unfolding grow_left grow_right claim peak_of
  peaks_from segs fraction [] claimed = []
  peaks_from segs fraction (idx ∷ order) claimed =
      let max_d = (seg_at segs idx).density in
      let thr = mul64 fraction max_d in
      let lo = grow_left segs claimed thr idx in
      let hi = grow_right (length segs) segs claimed thr idx in
      let skipped = peaks_from segs fraction order claimed in
      let taken =
        peak_of segs lo hi max_d
        ∷ peaks_from segs fraction order (claim (suc hi - lo) lo claimed) in
      if get_or claimed idx true then skipped else taken

  -- Tallest first.
  unfoldable pub order_of : List (Segment F) → List ℕ
  unfolding sort_by
  order_of segs =
      sort_by (λ a b. lt64 (seg_at segs b).density (seg_at segs a).density)
        (count_up (length segs) 0)

  unfoldable pub extract_peaks : List (Segment F) → F64 → List (Segment F)
  unfolding order_of peaks_from
  extract_peaks segs fraction =
      peaks_from segs fraction (order_of segs) (replicate (length segs) false)
