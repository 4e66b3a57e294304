-- ===== src/Store/Qdrant/Filters.antt =====
-- The filter of a query selects the same records in the collection as in the pool in memory.
use attndb.Prelude.{◌≡◌, refl, ap, false, ◌&&◌, Option, none, some, [], ◌∷◌, All}
use attndb.Prelude.Text.{Bytes, codes, bytes_eq}
use attndb.Prelude.Dict.{Dict, lookup}
use attndb.Core.Types.{Value, str, int, int64, bool}
use attndb.Core.Floats.{Floats}
use attndb.Store.Pool.{Record}
use attndb.Store.Memory.{value_eq, matches, matches_filters}
use attndb.Store.Qdrant.{conditions, to_value, value_map, point_payload, to_point}
use attndb.Store.Qdrant.Payload.{on_value, value_map-lookup, point_payload-lookup}
use attndb.Store.Qdrant.Deleted.{keyword_holds, holds, all_hold}

-- A filter as `buildQuery` makes it: a string under a key that is not one of the span.
abbrev pub IsTextual : Bytes × Value → Type 0
IsTextual (k, str x) =
    (bytes_eq (codes "span_start") k ≡ false) × (bytes_eq (codes "span_end") k ≡ false)
IsTextual (k, int x) = ⊥
IsTextual (k, int64 x) = ⊥
IsTextual (k, bool x) = ⊥

keyword_matches :
    (o : Option Value) (x : Bytes) → keyword_holds (on_value to_value o) x ≡ matches o (str x)
unfolding to_value matches value_eq
keyword_matches none x = refl
keyword_matches (some (str y)) x = refl
keyword_matches (some (int y)) x = refl
keyword_matches (some (int64 y)) x = refl
keyword_matches (some (bool y)) x = refl

module _ (F : Floats) where
  -- If all filters are strings under keys other than those of the span, the conditions that they are
  -- translated to hold of a record's point exactly when the pool in memory lets the record through.
  pub conditions-matches_filters :
      (r : Record F) (filters : Dict Value)
      → All IsTextual filters
      → all_hold (to_point F r).payload (conditions filters) ≡ matches_filters r.payload filters
  unfolding all_hold conditions matches_filters to_point holds
  conditions-matches_filters r [] h = refl
  conditions-matches_filters r ((k, str x) ∷ filters) ((a, b), h) =
      let here : keyword_holds (lookup k (value_map (point_payload F r))) x
          ≡ matches (lookup k r.payload) (str x) =
        rw (value_map-lookup, point_payload-lookup F k r a b)
          (keyword_matches (lookup k r.payload) x) in
      rw here (
        ap (λ t. matches (lookup k r.payload) (str x) && t)
          (conditions-matches_filters r filters h))
  conditions-matches_filters r ((k, int x) ∷ filters) (a, h) = absurd a
  conditions-matches_filters r ((k, int64 x) ∷ filters) (a, h) = absurd a
  conditions-matches_filters r ((k, bool x) ∷ filters) (a, h) = absurd a
