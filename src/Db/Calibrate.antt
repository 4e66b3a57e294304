-- ===== src/Db/Calibrate.antt =====
-- Calibrate and percentile of internal/db/db.go.
use attndb.Prelude.{
  ℕ, ◌-◌, ◌||◌, Option, none, some, List, [], ◌∷◌, ◌++◌, length, get_or, if◌then◌else◌,
}
use attndb.Prelude.Text.{Bytes}
use attndb.Prelude.Dict.{Dict, lookup, insert}
use attndb.Prelude.Sort.{sort_by}
use attndb.Core.Floats.{Floats}
use attndb.Pass.Lane.{Pool, Candidate, pass_deposits}
use attndb.Db.Compose.{PassCalib, Passes}

module _ (F : Floats) where
  open F use {
    F64, zero64, minus_inf64, nine_tenths64, micro64, add64, mul64, lt64, eq64, of_ℕ64, trunc64,
    widen,
  }

  unfoldable pub percentile : List F64 → F64 → F64
  unfolding sort_by
  percentile [] p = zero64
  percentile (x ∷ xs) p =
      get_or (sort_by lt64 (x ∷ xs)) (trunc64 (mul64 p (of_ℕ64 (length (x ∷ xs) - 1)))) zero64

  unfoldable pub top_score : F64 → List (Candidate F) → F64
  top_score top [] = top
  top_score top (c ∷ cands) =
      top_score (if lt64 top (widen c.score) then widen c.score else top) cands

  abbrev pub none_yet : Option (List F64) → List F64
  none_yet none = []
  none_yet (some xs) = xs

  -- tops[p.Name()] = append(tops[p.Name()], top)
  unfoldable pub add_top : Bytes → List (Candidate F) → Dict (List F64) → Dict (List F64)
  add_top name [] tops = tops
  add_top name (c ∷ cands) tops =
      insert name (none_yet (lookup name tops) ++ top_score minus_inf64 (c ∷ cands) ∷ []) tops

  -- hi <= lo → hi = lo + 1e-6
  unfoldable pub calib_range : F64 → F64 → PassCalib F
  calib_range lo hi = record {
    lo = lo;
    hi = if lt64 hi lo || eq64 hi lo then add64 lo micro64 else hi;
  }

  module _ (P : Pool F) where
    unfoldable pub collect_query :
        ℕ → Bytes → Passes F P → Dict (List F64) → Option (Dict (List F64))
    collect_query k q [] tops = some tops
    collect_query k q ((p, s) ∷ passes) tops =
        elim (pass_deposits F P p (record { text = q; filters = [] }) k s) [
          | none ↦ none
          | some cands ↦ collect_query k q passes (add_top p.name cands tops)
        ]

    unfoldable pub collect :
        ℕ → List Bytes → Passes F P → Dict (List F64) → Option (Dict (List F64))
    collect k [] passes tops = some tops
    collect k (q ∷ samples) passes tops = elim (collect_query k q passes tops) [
      | none ↦ none
      | some tops' ↦ collect k samples passes tops'
    ]

    ranges :
        Dict (List F64) → Dict (List F64) → Passes F P → Dict (PassCalib F) → Dict (PassCalib F)
    ranges pos_tops neg_tops [] out = out
    ranges pos_tops neg_tops ((p, s) ∷ passes) out = elim (none_yet (lookup p.name pos_tops)) [
      | [] ↦ ranges pos_tops neg_tops passes out
      | x ∷ xs ↦ ranges pos_tops neg_tops passes (
          insert p.name
            (calib_range (percentile (none_yet (lookup p.name neg_tops)) nine_tenths64)
              (percentile (x ∷ xs) nine_tenths64))
            out)
    ]

    unfoldable pub calibrate :
        ℕ → List Bytes → List Bytes → Passes F P → Option (Dict (PassCalib F))
    unfolding ranges
    calibrate k positives negatives passes = elim (collect k positives passes []) [
      | none ↦ none
      | some pos_tops ↦ elim (collect k negatives passes []) [
        | none ↦ none
        | some neg_tops ↦ some (ranges pos_tops neg_tops passes [])
      ]
    ]
