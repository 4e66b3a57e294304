-- ===== src/Reconcile/Index.antt =====
-- What the reconciler needs of the index, the interfaces `Store` and `Ingester` of
-- internal/reconcile/reconcile.go: the operations on a state that it shares with the pools, and
-- the laws that the theorems assume of them.
use attndb.Prelude.{◌≡◌, false, Option, none, some, List, [], ◌∷◌}
use attndb.Prelude.Text.{Bytes, codes, bytes_eq}
use attndb.Prelude.Dict.{Dict, lookup}
use attndb.Core.Types.{Document}
use attndb.Store.Stamp.{DocStamp, zero_stamp, with_mtime, with_sha}

-- Go's `error`: none for nil.
abbrev pub Error : Type 0
Error = Option Bytes

pub record Index : Type 1 where
  pub State : Type 0
  pub delete : Bytes → State → Error × State
  -- `db.Ingest`, and `Ingest` of an open ingester
  pub ingest : List Document → State → Error × State
  pub session_ingest : List Document → State → Error × State
  -- the factory `newIngester`, none for nil
  pub new_ingester : Option (State → Error × State)
  pub close : State → State
  -- none where reading the stamps fails
  pub stamps : State → Option (Dict DocStamp)

-- stampOf
unfoldable pub stamp_of : Document → DocStamp
unfolding lookup
stamp_of d =
    with_sha (lookup (codes "sha") d.meta) (with_mtime (lookup (codes "mtime") d.meta) zero_stamp)

-- What a successful operation does to the stamps that the index holds, and that a failed one
-- concerns its own document only. A document is ingested where the index does not hold it.
pub record Laws (I : Index) : Type 0 where
  pub view : I.State → Bytes → Option DocStamp
  pub delete_self :
      (id : Bytes) (s : I.State) → (I.delete id s).0 ≡ none → view (I.delete id s).1 id ≡ none
  pub delete_other :
      (id j : Bytes) (s : I.State) → bytes_eq id j ≡ false → view (I.delete id s).1 j ≡ view s j
  pub ingest_self :
      (d : Document) (s : I.State)
      → view s d.id ≡ none
      → (I.ingest (d ∷ []) s).0 ≡ none
      → view (I.ingest (d ∷ []) s).1 d.id ≡ some (stamp_of d)
  pub ingest_other :
      (d : Document) (j : Bytes) (s : I.State)
      → bytes_eq d.id j ≡ false
      → view (I.ingest (d ∷ []) s).1 j ≡ view s j
  pub session_self :
      (d : Document) (s : I.State)
      → view s d.id ≡ none
      → (I.session_ingest (d ∷ []) s).0 ≡ none
      → view (I.session_ingest (d ∷ []) s).1 d.id ≡ some (stamp_of d)
  pub session_other :
      (d : Document) (j : Bytes) (s : I.State)
      → bytes_eq d.id j ≡ false
      → view (I.session_ingest (d ∷ []) s).1 j ≡ view s j
  pub opened :
      (f : I.State → Error × I.State) (j : Bytes) (s : I.State)
      → I.new_ingester ≡ some f
      → view (f s).1 j ≡ view s j
  pub closed : (j : Bytes) (s : I.State) → view (I.close s) j ≡ view s j
  pub read_back :
      (s : I.State) (idx : Dict DocStamp) (j : Bytes)
      → I.stamps s ≡ some idx
      → lookup j idx ≡ view s j
