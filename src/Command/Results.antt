-- ===== src/Command/Results.antt =====
-- gate and snippet of cmd/attndb/main.go.
use attndb.Prelude.{◌≡◌, refl, ◌||◌, List, [], ◌∷◌, ◌++◌, length, take, if◌then◌else◌, ltb, leb}
use attndb.Prelude.Text.{Bytes, codes, slice, fields, join}
use attndb.Core.Spans.{Span}
use attndb.Core.Floats.{Floats}
use attndb.Db.Compose.{Hit}

-- "…" in UTF-8
abbrev pub ellipsis : Bytes
ellipsis = 0xe2 ∷ 0x80 ∷ 0xa6 ∷ []

unfoldable pub shortened : Bytes → Bytes
shortened s = if ltb 240 (length s) then take 240 s ++ ellipsis else s

unfoldable pub snippet : Bytes → Span → Bytes
unfolding shortened fields join
snippet text span =
    if ltb (length text) span.end || leb span.end span.start
    then []
    else shortened (join (codes " ") (fields (slice text span.start span.end)))

module _ (F : Floats) where
  open F use {F64, zero64, lt64, eq64, widen}

  -- float64(r.Score) >= min, for each result
  unfoldable pub at_least : F64 → List (Hit F) → List (Hit F)
  at_least low [] = []
  at_least low (r ∷ results) =
      let rest = at_least low results in
      if lt64 low (widen r.score) || eq64 (widen r.score) low then r ∷ rest else rest

  -- No gate where the threshold is 0 or less.
  unfoldable pub gate : List (Hit F) → F64 → List (Hit F)
  unfolding at_least
  gate results low = if lt64 low zero64 || eq64 low zero64 then results else at_least low results

snippet_runs : snippet (codes "one  two\nthree") (record { start = 0; end = 9 }) ≡ codes "one two"
unfolding snippet
snippet_runs = refl
