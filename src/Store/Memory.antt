-- ===== src/Store/Memory.antt =====
-- internal/store/memory.go: the pool that searches by brute force. The state is the map of records.
pub mod Deleted
pub mod Stored
pub mod Collected
pub mod Nearest
use attndb.Prelude.{
  ℕ, Bool, true, false, ◌&&◌, Option, none, some, List, [], ◌∷◌, length, take, if◌then◌else◌, ltb,
  ◌==◌,
}
use attndb.Prelude.Int.{ℤ, pos, negsuc}
use attndb.Prelude.Text.{Bytes, codes, bytes_eq}
use attndb.Prelude.Dict.{Dict, lookup, insert}
use attndb.Prelude.Sort.{sort_by}
use attndb.Core.Types.{Value, str, int, int64, bool}
use attndb.Core.Floats.{Floats}
use attndb.Core.Vec.{TokenVecs, cosine, max_sim}
use attndb.Store.Stamp.{DocStamp, zero_stamp, with_mtime, with_sha}
use attndb.Store.Pool.{Record, Scored}

abbrev pub int_eq : ℤ → ℤ → Bool
int_eq (pos a) (pos b) = a == b
int_eq (negsuc a) (negsuc b) = a == b
int_eq (pos a) (negsuc b) = false
int_eq (negsuc a) (pos b) = false

-- The comparison of two values of interface type: same dynamic type, same value.
unfoldable pub value_eq : Value → Value → Bool
value_eq (str a) (str b) = bytes_eq a b
value_eq (int a) (int b) = int_eq a b
value_eq (int64 a) (int64 b) = int_eq a b
value_eq (bool a) (bool b) = a == b
value_eq _ _ = false

-- payload[k] != v; a missing key reads as nil, which is no filter's value
unfoldable pub matches : Option Value → Value → Bool
unfolding value_eq
matches none v = false
matches (some w) v = value_eq w v

unfoldable pub matches_filters : Dict Value → Dict Value → Bool
unfolding matches lookup
matches_filters payload [] = true
matches_filters payload ((k, v) ∷ filters) =
    matches (lookup k payload) v && matches_filters payload filters

module _ (F : Floats) where
  open F use {F32, lt32}

  unfoldable pub upsert : List (Record F) → Dict (Record F) → Dict (Record F)
  unfolding insert
  upsert [] recs = recs
  upsert (r ∷ rest) recs = upsert rest (insert r.id r recs)

  unfoldable pub delete : Bytes → Dict (Record F) → Dict (Record F)
  delete doc_id [] = []
  delete doc_id ((id, r) ∷ recs) =
      let rest = delete doc_id recs in if bytes_eq r.doc_id doc_id then rest else (id, r) ∷ rest

  pub or_zero : Option DocStamp → DocStamp
  or_zero none = zero_stamp
  or_zero (some st) = st

  stamps_from : Dict (Record F) → Dict DocStamp → Dict DocStamp
  unfolding lookup insert or_zero
  stamps_from [] out = out
  stamps_from ((id, r) ∷ recs) out = stamps_from recs (
      insert r.doc_id
        (with_sha (lookup (codes "sha") r.payload)
          (with_mtime (lookup (codes "mtime") r.payload) (or_zero (lookup r.doc_id out))))
        out)

  unfoldable pub stamps : Dict (Record F) → Dict DocStamp
  unfolding stamps_from
  stamps recs = stamps_from recs []

  scored_if : Record F → Option F32 → List (Scored F) → List (Scored F)
  scored_if r none rest = rest
  scored_if r (some s) rest = record { rec = r; score = s } ∷ rest

  unfoldable pub score_all :
      (Record F → Option F32) → Dict Value → Dict (Record F) → List (Scored F)
  unfolding scored_if matches_filters
  score_all score filters [] = []
  score_all score filters ((id, r) ∷ recs) =
      let rest = score_all score filters recs in
      let kept = scored_if r (score r) rest in
      if matches_filters r.payload filters then kept else rest

  -- k > 0 && len(scored) > k, for a natural k; the callers pass no negative one
  unfoldable pub cut : ℕ → List (Scored F) → List (Scored F)
  cut k scored = if ltb 0 k && ltb k (length scored) then take k scored else scored

  unfoldable pub top_k :
      ℕ → (Record F → Option F32) → Dict Value → Dict (Record F) → List (Scored F)
  unfolding score_all cut sort_by
  top_k k score filters recs =
      cut k (sort_by (λ a b. lt32 b.score a.score) (score_all score filters recs))

  unfoldable pub single_score : List F32 → Record F → Option F32
  single_score vec r = elim r.vector [ none ↦ none | some v ↦ some (cosine F vec v) ]

  unfoldable pub multi_score : TokenVecs F → Record F → Option F32
  multi_score q r = if length r.tokens.vecs == 0 then none else some (max_sim F q r.tokens).0

  unfoldable pub search_single : List F32 → ℕ → Dict Value → Dict (Record F) → List (Scored F)
  unfolding top_k single_score cosine
  search_single vec k filters recs = top_k k (single_score vec) filters recs

  unfoldable pub search_multi : TokenVecs F → ℕ → Dict Value → Dict (Record F) → List (Scored F)
  unfolding top_k multi_score max_sim
  search_multi q k filters recs = top_k k (multi_score q) filters recs
