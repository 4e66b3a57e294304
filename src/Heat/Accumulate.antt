-- ===== src/Heat/Accumulate.antt =====
-- `Accumulate` of internal/heat/heat.go: the peaks of all documents, highest first.
use attndb.Prelude.{◌||◌, Option, none, some, List, [], ◌∷◌, ◌++◌, if◌then◌else◌}
use attndb.Prelude.Int.{pos, ltb_ℤ}
use attndb.Prelude.Text.{Bytes}
use attndb.Prelude.Dict.{Dict, lookup, insert}
use attndb.Prelude.Sort.{sort_by}
use attndb.Core.Spans.{Span, len}
use attndb.Core.Floats.{Floats}
use attndb.Heat.Density.{Deposit, Segment, density_segments}
use attndb.Heat.Peaks.{extract_peaks}

module _ (F : Floats) where
  open F use {F64, zero64, half64, one64, lt64, eq64}

  pub record Peak : Type 0 where
    pub doc_id : Bytes
    pub span : Span
    pub score : F64

  -- peakFraction <= 0 || peakFraction > 1
  unfoldable pub peak_fraction : F64 → F64
  peak_fraction f = if lt64 f zero64 || eq64 f zero64 || lt64 one64 f then half64 else f

  or_empty : Option (List (Deposit F)) → List (Deposit F)
  or_empty none = []
  or_empty (some ds) = ds

  -- byDoc[d.DocID] = append(byDoc[d.DocID], d), for the deposits that are not empty
  unfoldable pub group : List (Deposit F) → Dict (List (Deposit F)) → Dict (List (Deposit F))
  unfolding lookup insert or_empty len
  group [] by_doc = by_doc
  group (d ∷ deps) by_doc = group deps (
      if ltb_ℤ (pos 0) (len d.span)
      then insert d.doc_id (or_empty (lookup d.doc_id by_doc) ++ d ∷ []) by_doc
      else by_doc)

  peaks_of_doc : Bytes → List (Segment F) → List Peak
  peaks_of_doc doc [] = []
  peaks_of_doc doc (seg ∷ segs) =
      record { doc_id = doc; span = seg.span; score = seg.density } ∷ peaks_of_doc doc segs

  unfoldable pub peaks_of : F64 → Dict (List (Deposit F)) → List Peak
  unfolding peaks_of_doc density_segments extract_peaks
  peaks_of fraction [] = []
  peaks_of fraction ((doc, ds) ∷ by_doc) =
      peaks_of_doc doc (extract_peaks F (density_segments F ds) fraction)
      ++ peaks_of fraction by_doc

  -- The order in which one run of the loop ranges over the map: Go leaves it open, and it is another
  -- one in each run.
  abbrev pub Ranging : Type 0
  Ranging = Dict (List (Deposit F)) → Dict (List (Deposit F))

  unfoldable pub accumulate : Ranging → List (Deposit F) → F64 → List Peak
  unfolding peak_fraction group peaks_of sort_by
  accumulate order deps fraction =
      sort_by (λ a b. lt64 b.score a.score)
        (peaks_of (peak_fraction fraction) (order (group deps [])))
