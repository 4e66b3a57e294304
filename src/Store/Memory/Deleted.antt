-- ===== src/Store/Memory/Deleted.antt =====
-- What deleting a document does to the stamps of the pool.
use attndb.Prelude.{
  ◌≡◌, refl, ap, false, Option, none, some, [], ◌∷◌, if◌then◌else◌, Bool-cases, inl, inr, ◌∙◌,
}
use attndb.Prelude.Text.{Bytes, codes, bytes_eq, bytes_eq→eq}
use attndb.Prelude.Dict.{Dict, lookup, insert, lookup-insert}
use attndb.Core.Floats.{Floats}
use attndb.Store.Stamp.{DocStamp, with_mtime, with_sha}
use attndb.Store.Pool.{Record}
use attndb.Store.Memory.{delete, or_zero, stamps_from, stamps}

module _ (F : Floats) where
  -- The stamp of a record's document, once the record has been read.
  abbrev pub restamped : Record F → Dict DocStamp → DocStamp
  restamped r out =
      with_sha (lookup (codes "sha") r.payload)
        (with_mtime (lookup (codes "mtime") r.payload) (or_zero F (lookup r.doc_id out)))

  deleted-none :
      (doc : Bytes) (recs : Dict (Record F)) (out : Dict DocStamp)
      → lookup doc (stamps_from F (delete F doc recs) out) ≡ lookup doc out
  unfolding delete stamps_from
  deleted-none doc [] out = refl
  deleted-none doc ((id, r) ∷ recs) out = elim (Bool-cases (bytes_eq r.doc_id doc)) [
    | inl gone ↦ rw gone (deleted-none doc recs out)
    | inr kept ↦ rw kept (
        deleted-none doc recs (insert r.doc_id (restamped r out) out)
        ∙ rw (lookup-insert, kept) refl)
  ]

  deleted-other :
      (doc j : Bytes) (recs : Dict (Record F)) (out out' : Dict DocStamp)
      → bytes_eq doc j ≡ false
      → lookup j out ≡ lookup j out'
      → lookup j (stamps_from F (delete F doc recs) out) ≡ lookup j (stamps_from F recs out')
  unfolding delete stamps_from
  deleted-other doc j [] out out' ne same = same
  deleted-other doc j ((id, r) ∷ recs) out out' ne same =
      elim (Bool-cases (bytes_eq r.doc_id doc)) [
        | inl gone ↦ rw gone (
            deleted-other doc j recs out (insert r.doc_id (restamped r out') out') ne
              (rw (lookup-insert, bytes_eq→eq r.doc_id doc gone, ne) same))
        | inr kept ↦ rw kept (
            deleted-other doc j recs (insert r.doc_id (restamped r out) out)
              (insert r.doc_id (restamped r out') out') ne
              (elim (Bool-cases (bytes_eq r.doc_id j)) [
                | inl here ↦
                    let old : lookup r.doc_id out ≡ lookup r.doc_id out' =
                      rw (bytes_eq→eq r.doc_id j here) same in
                    rw (lookup-insert, lookup-insert, here)
                      (ap
                        (λ (o : Option DocStamp). some (
                          with_sha (lookup (codes "sha") r.payload)
                            (with_mtime (lookup (codes "mtime") r.payload) (or_zero F o))))
                        old)
                | inr apart ↦ rw (lookup-insert, lookup-insert, apart) same
              ]))
      ]

  -- Deleting a document leaves no stamp of it in the pool, and every other document's stamp as it
  -- was.
  pub delete-stamps :
      (doc j : Bytes) (recs : Dict (Record F))
      → lookup j (stamps F (delete F doc recs))
        ≡ (if bytes_eq doc j then none else lookup j (stamps F recs))
  unfolding stamps lookup
  delete-stamps doc j recs = elim (Bool-cases (bytes_eq doc j)) [
    | inl here ↦ rw (here, if◌then◌else◌) (rw (← bytes_eq→eq doc j here) (deleted-none doc recs []))
    | inr apart ↦ rw (apart, if◌then◌else◌) (deleted-other doc j recs [] [] apart refl)
  ]
