-- ===== src/Store/Memory/Stored.antt =====
-- What storing one record does to the stamps of the pool.
use attndb.Prelude.{
  ◌≡◌, refl, ap, true, false, Option, none, some, [], ◌∷◌, Bool-cases, inl, inr, All,
}
use attndb.Prelude.Text.{Bytes, codes, bytes_eq, bytes_eq→eq, bytes_eq_refl}
use attndb.Prelude.Dict.{Dict, lookup, insert, lookup-insert}
use attndb.Core.Floats.{Floats}
use attndb.Store.Stamp.{DocStamp, zero_stamp, with_mtime, with_sha}
use attndb.Store.Pool.{Record}
use attndb.Store.Memory.{upsert, or_zero, stamps_from, stamps}
use attndb.Store.Memory.Deleted.{restamped}

module _ (F : Floats) where
  -- The stamp of a document that has this record only.
  abbrev pub own_stamp : Record F → DocStamp
  own_stamp r =
      with_sha (lookup (codes "sha") r.payload)
        (with_mtime (lookup (codes "mtime") r.payload) zero_stamp)

  -- A record under the key is one of the document.
  abbrev pub Owns : Bytes → Bytes → Dict (Record F) → Type 0
  Owns key doc recs = All (λ (id, r). bytes_eq id key ≡ true → r.doc_id ≡ doc) recs

  -- No record is one of the document.
  abbrev Absent : Bytes → Dict (Record F) → Type 0
  Absent doc recs = All (λ (id, r). bytes_eq r.doc_id doc ≡ false) recs

  restamped_agree :
      (r : Record F) (j : Bytes) (out out' : Dict DocStamp)
      → lookup j out ≡ lookup j out'
      → lookup j (insert r.doc_id (restamped F r out) out)
        ≡ lookup j (insert r.doc_id (restamped F r out') out')
  restamped_agree r j out out' same = elim (Bool-cases (bytes_eq r.doc_id j)) [
    | inl here ↦
        let old : lookup r.doc_id out ≡ lookup r.doc_id out' =
          rw (bytes_eq→eq r.doc_id j here) same in
        rw (lookup-insert, lookup-insert, here)
          (ap
            (λ (o : Option DocStamp). some (
              with_sha (lookup (codes "sha") r.payload)
                (with_mtime (lookup (codes "mtime") r.payload) (or_zero F o))))
            old)
    | inr apart ↦ rw (lookup-insert, lookup-insert, apart) same
  ]

  stamps_from-agree :
      (recs : Dict (Record F)) (j : Bytes) (out out' : Dict DocStamp)
      → lookup j out ≡ lookup j out'
      → lookup j (stamps_from F recs out) ≡ lookup j (stamps_from F recs out')
  unfolding stamps_from
  stamps_from-agree [] j out out' same = same
  stamps_from-agree ((id, r) ∷ recs) j out out' same =
      stamps_from-agree recs j (insert r.doc_id (restamped F r out) out)
        (insert r.doc_id (restamped F r out') out') (restamped_agree r j out out' same)

  inserted-other :
      (key : Bytes) (r : Record F) (j : Bytes) (recs : Dict (Record F)) (out out' : Dict DocStamp)
      → Owns key r.doc_id recs
      → bytes_eq r.doc_id j ≡ false
      → lookup j out ≡ lookup j out'
      → lookup j (stamps_from F (insert key r recs) out) ≡ lookup j (stamps_from F recs out')
  unfolding insert stamps_from
  inserted-other key r j [] out out' owns ne same = rw (lookup-insert, ne) same
  inserted-other key r j ((id, r') ∷ recs) out out' (own, owns) ne same =
      elim (Bool-cases (bytes_eq id key)) [
        | inl here ↦ rw here (
            stamps_from-agree recs j (insert r.doc_id (restamped F r out) out)
              (insert r'.doc_id (restamped F r' out') out')
              (rw (lookup-insert, lookup-insert, own here, ne) same))
        | inr apart ↦ rw apart (
            inserted-other key r j recs (insert r'.doc_id (restamped F r' out) out)
              (insert r'.doc_id (restamped F r' out') out') owns ne
              (restamped_agree r' j out out' same))
      ]

  -- A stamp once there stays there.
  stamps_from-keeps :
      (recs : Dict (Record F)) (j : Bytes) (out : Dict DocStamp)
      → lookup j (stamps_from F recs out) ≡ none
      → (lookup j out ≡ none) × Absent j recs
  unfolding stamps_from
  stamps_from-keeps [] j out gone = (gone, tt)
  stamps_from-keeps ((id, r) ∷ recs) j out gone =
      let (before, absent) =
        stamps_from-keeps recs j (insert r.doc_id (restamped F r out) out) gone in
      elim (Bool-cases (bytes_eq r.doc_id j)) [
        | inl here ↦ absurd (let h = rw (lookup-insert, here) at (before) in cc)
        | inr apart ↦ (rw (lookup-insert, apart) at (before), (apart, absent))
      ]

  inserted_self :
      (key : Bytes) (r : Record F) (recs : Dict (Record F)) (out : Dict DocStamp)
      → Owns key r.doc_id recs
      → Absent r.doc_id recs
      → lookup r.doc_id out ≡ none
      → lookup r.doc_id (stamps_from F (insert key r recs) out) ≡ some (own_stamp r)
  unfolding insert stamps_from or_zero
  inserted_self key r [] out owns absent gone =
      rw (lookup-insert, bytes_eq_refl) (rw (gone, or_zero) refl)
  inserted_self key r ((id, r') ∷ recs) out (own, owns) (apart, absent) gone =
      elim (Bool-cases (bytes_eq id key)) [
        | inl here ↦ absurd (let h = rw (own here, bytes_eq_refl) at (apart) in cc)
        | inr other ↦ rw other (
            inserted_self key r recs (insert r'.doc_id (restamped F r' out) out) owns absent
              (rw (lookup-insert, apart) gone))
      ]

  -- Storing a record whose key no other document's record has keeps the stamps of the other
  -- documents, and gives its own document, if that had none, the stamp of its payload.
  pub upsert-stamps :
      (r : Record F) (recs : Dict (Record F))
      → Owns r.id r.doc_id recs
      → ((j : Bytes)
          → bytes_eq r.doc_id j ≡ false
          → lookup j (stamps F (upsert F (r ∷ []) recs)) ≡ lookup j (stamps F recs))
        × (lookup r.doc_id (stamps F recs) ≡ none
            → lookup r.doc_id (stamps F (upsert F (r ∷ []) recs)) ≡ some (own_stamp r))
  unfolding stamps upsert
  upsert-stamps r recs owns = (
    λ j ne. inserted-other r.id r j recs [] [] owns ne refl,
    λ gone. inserted_self r.id r recs [] owns (stamps_from-keeps recs r.doc_id [] gone).1 refl,
  )
