-- ===== src/Serve/Assemble/Refines.antt =====
-- The assembled database is an index as the reconciler needs it.
use attndb.Prelude.{
  ◌≡◌, refl, sym, ap, ◌∙◌, ◌⊎◌, inl, inr, false, Option, none, some, List, [], ◌∷◌, map, length,
  ltb, if◌then◌else◌, arith, All, Bool-cases,
}
use attndb.Prelude.Text.{Bytes, codes, bytes_eq}
use attndb.Prelude.Dict.{Dict, lookup}
use attndb.Core.Floats.{Floats}
use attndb.Store.Stamp.{DocStamp}
use attndb.Store.Memory.{upsert, delete, stamps}
use attndb.Store.Memory.Stored.{upsert-stamps}
use attndb.Pass.Coords.Stamped.{payload-stamp}
use attndb.Core.Types.{Document, Chunk}
use attndb.Core.Vec.{TokenVecs}
use attndb.Store.Pool.{Record}
use attndb.Pass.Coords.{encode_text}
use attndb.Pass.Lane.{Lane, ingest_docs, records_of, single_records, token_records}
use attndb.Db.Compose.{ingest, delete_docs, delete_from, db_stamps}
use attndb.Reconcile.Index.{stamp_of}
use attndb.Serve.Assemble.{
  memory, DbPools, Tuning, MultiEncoder, SingleEncoder, tok_lane, para_lane, doc_lane, ingest_into,
  delete_from_db, stamps_of_db,
}
use attndb.Serve.Assemble.Documents.{
  OnePerText, Keyed, Keyed-Owns, whole, doc_record, delete-Keyed, ingest_docs-Keyed,
  ingest_docs-step,
}

module _ (F : Floats) (m : MultiEncoder F) (t : Tuning F) where
  pub delete_from_db-pools :
      (s : SingleEncoder F) (id : Bytes) (p : DbPools F)
      → delete_from_db F m t s (id ∷ []) p ≡ (
        none,
        record { tok = delete F id p.tok; para = delete F id p.para; doc = delete F id p.doc },
      )
  unfolding delete_from_db delete_docs delete_from
  delete_from_db-pools s id p = refl

  pub stamps_of_db-doc :
      (s : SingleEncoder F) (p : DbPools F) → stamps_of_db F m t s p ≡ some (stamps F p.doc)
  unfolding stamps_of_db db_stamps tok_lane para_lane doc_lane bytes_eq
  stamps_of_db-doc s p = refl

  -- Where an earlier pass fails, the documents' pool stays as it was.
  ingest_into-doc :
      (s : SingleEncoder F) (docs : List Document) (p : DbPools F)
      → ((x : Bytes) × ((ingest_into F m t s docs p).0 ≡ some x)
          × ((ingest_into F m t s docs p).1.doc ≡ p.doc))
        ⊎ (((ingest_into F m t s docs p).0
              ≡ (ingest_docs F (memory F) (doc_lane F s t) docs p.doc).0)
            × ((ingest_into F m t s docs p).1.doc
                ≡ (ingest_docs F (memory F) (doc_lane F s t) docs p.doc).1))
  unfolding ingest_into ingest
  ingest_into-doc s docs p = ground arith

  -- Where the index's stamps are read from.
  abbrev pub held : DbPools F → Bytes → Option DocStamp
  held p j = lookup j (stamps F p.doc)

  module _ (s : SingleEncoder F) (one : OnePerText F s) where
    ingested_docs :
        (d : Document) (p : DbPools F)
        → All (Keyed F) p.doc
        → ((j : Bytes)
            → bytes_eq d.id j ≡ false
            → lookup j (stamps F (ingest_docs F (memory F) (doc_lane F s t) (d ∷ []) p.doc).1)
              ≡ held p j)
          × (held p d.id ≡ none
              → (ingest_docs F (memory F) (doc_lane F s t) (d ∷ []) p.doc).0 ≡ none
              → lookup d.id (stamps F (ingest_docs F (memory F) (doc_lane F s t) (d ∷ []) p.doc).1)
                ≡ some (stamp_of d))
    ingested_docs d p keyed = elim (ingest_docs-step F t s one d [] p.doc) [
      | inl e ↦ rw e (λ j ne. refl, λ gone ok. absurd (cc))
      | inr (vec, e) ↦
          let (others, own) =
            upsert-stamps F (doc_record F d vec) p.doc (Keyed-Owns F d p.doc keyed) in
          unfold ingest_docs in
          rw e (others, λ gone ok. own gone ∙ ap some (payload-stamp d (whole F d) refl))
    ]

    pub ingest_into-stamps :
        (d : Document) (p : DbPools F)
        → All (Keyed F) p.doc
        → ((j : Bytes)
            → bytes_eq d.id j ≡ false
            → held (ingest_into F m t s (d ∷ []) p).1 j ≡ held p j)
          × (held p d.id ≡ none
              → (ingest_into F m t s (d ∷ []) p).0 ≡ none
              → held (ingest_into F m t s (d ∷ []) p).1 d.id ≡ some (stamp_of d))
    ingest_into-stamps d p keyed = elim (ingest_into-doc s (d ∷ []) p) [
      | inl (x, failed, kept) ↦ rw kept (λ j ne. refl, λ gone ok. absurd (cc))
      | inr (same, doc) ↦
          let (others, own) = ingested_docs d p keyed in
          rw doc (others, λ gone ok. own gone (sym same ∙ ok))
    ]

    pub ingest_into-Keyed :
        (docs : List Document) (p : DbPools F)
        → All (Keyed F) p.doc
        → All (Keyed F) (ingest_into F m t s docs p).1.doc
    ingest_into-Keyed docs p keyed = elim (ingest_into-doc s docs p) [
      | inl (x, failed, kept) ↦ rw kept keyed
      | inr (same, doc) ↦ rw doc (ingest_docs-Keyed F t s one docs p.doc keyed)
    ]

  pub delete_from_db-Keyed :
      (s : SingleEncoder F) (id : Bytes) (p : DbPools F)
      → All (Keyed F) p.doc
      → All (Keyed F) (delete_from_db F m t s (id ∷ []) p).1.doc
  delete_from_db-Keyed s id p keyed = rw delete_from_db-pools (delete-Keyed F id p.doc keyed)

  -- Encoders that never fail let every document in.
  abbrev pub Total : SingleEncoder F → Type 0
  Total s =
      ((texts : List Bytes) → (vecs : List (List F.F32)) × (s.encode_docs texts ≡ some vecs))
      × ((texts : List Bytes) → (tvs : List (TokenVecs F)) × (m.encode_docs texts ≡ some tvs))

  ingest_docs_total :
      (p : Lane F) (docs : List Document) (recs : Dict (Record F))
      → ((d : Document) (chunks : List Chunk)
          → (rs : List (Record F)) × (records_of F p.name p.encoder d chunks ≡ some rs))
      → (ingest_docs F (memory F) p docs recs).0 ≡ none
  unfolding ingest_docs
  ingest_docs_total p [] recs total = refl
  ingest_docs_total p (d ∷ docs) recs total = elim (Bool-cases (ltb 0 (length (p.chunker d)))) [
    | inl full ↦
        let (rs, e) = total d (p.chunker d) in
        rw (full, if◌then◌else◌)
          (rw (e, ingest_docs) (ingest_docs_total p docs (upsert F rs recs) total))
    | inr empty ↦ rw (empty, if◌then◌else◌) (ingest_docs_total p docs recs total)
  ]

  pub ingest_into-Total :
      (s : SingleEncoder F) (docs : List Document) (p : DbPools F)
      → Total s
      → (ingest_into F m t s docs p).0 ≡ none
  unfolding ingest_into ingest records_of tok_lane para_lane doc_lane
  ingest_into-Total s docs p (singles, multis) =
      let tok = ingest_docs_total (tok_lane F m t) docs p.tok (λ d chunks.
        let (tvs, e) = multis (map encode_text chunks) in
        (token_records F (codes "tok-section") d chunks tvs, rw e refl)) in
      let para = ingest_docs_total (para_lane F s t) docs p.para (λ d chunks.
        let (vs, e) = singles (map encode_text chunks) in
        (single_records F (codes "para") d chunks vs, rw e refl)) in
      let doc = ingest_docs_total (doc_lane F s t) docs p.doc (λ d chunks.
        let (vs, e) = singles (map encode_text chunks) in
        (single_records F (codes "doc") d chunks vs, rw e refl)) in
      rw (tok, ingest) (rw (para, ingest) (rw (doc, ingest) refl))
