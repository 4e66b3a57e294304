-- ===== src/Pass/Coords/Stamped.antt =====
-- The stamp that a pool reads back from a payload is the one of the document.
use attndb.Prelude.{◌≡◌, refl, Option, none, some, [], ◌∷◌, Bool-cases, inl, inr}
use attndb.Prelude.Text.{Bytes, codes, bytes_eq}
use attndb.Prelude.Dict.{Dict, lookup, lookup-insert}
use attndb.Core.Types.{Value, str, Document, Chunk}
use attndb.Store.Stamp.{with_mtime, with_sha, zero_stamp}
use attndb.Reconcile.Index.{stamp_of}
use attndb.Pass.Coords.{copy_meta, payload}

-- The copied entries come before those of the map.
abbrev overlay : Option Value → Option Value → Option Value
overlay none b = b
overlay (some v) b = some v

copy_meta-lookup :
    (k : Bytes) (meta m : Dict Value)
    → lookup k (copy_meta meta m) ≡ overlay (lookup k meta) (lookup k m)
unfolding copy_meta lookup
copy_meta-lookup k [] m = refl
copy_meta-lookup k ((j, v) ∷ meta) m = elim (Bool-cases (bytes_eq j k)) [
  | inl here ↦ rw (lookup-insert, here) refl
  | inr apart ↦ rw (lookup-insert, apart) (copy_meta-lookup k meta m)
]

overlay-none : (o : Option Value) → overlay o none ≡ o
overlay-none none = refl
overlay-none (some v) = refl

-- Of a chunk without headings, whose payload is the document's metadata.
pub payload-stamp :
    (d : Document) (c : Chunk)
    → c.heading_path ≡ []
    → with_sha
        (lookup (codes "sha") (payload d c))
        (with_mtime (lookup (codes "mtime") (payload d c)) zero_stamp)
      ≡ stamp_of d
unfolding payload stamp_of lookup bytes_eq
payload-stamp d c flat =
    rw (flat, payload)
      (rw (copy_meta-lookup (codes "sha") d.meta ((codes "doc_id", str d.id) ∷ [])) (
        rw (copy_meta-lookup (codes "mtime") d.meta ((codes "doc_id", str d.id) ∷ []))
          (rw (overlay-none, overlay-none) refl)))
