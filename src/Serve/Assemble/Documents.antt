-- ===== src/Serve/Assemble/Documents.antt =====
-- The pool of the whole documents: what the pass `doc` stores there, and under which identifiers.
use attndb.Prelude.{
  ◌≡◌, refl, sym, ◌∙◌, ◌⊎◌, inl, inr, some, List, [], ◌∷◌, length, arith, All, Bool-cases,
  Option-cases,
}
use attndb.Prelude.Text.{Bytes, codes, bytes_eq, bytes_eq→eq}
use attndb.Prelude.Dict.{Dict, insert}
use attndb.Core.Types.{Document, Chunk}
use attndb.Core.Floats.{Floats}
use attndb.Chunk.Chunkers.{whole_doc}
use attndb.Store.Pool.{Record}
use attndb.Store.Memory.{upsert, delete}
use attndb.Store.Memory.Stored.{Owns}
use attndb.Pass.Coords.{encode_text, record_id, payload}
use attndb.Pass.Coords.Unique.{record_id_injective}
use attndb.Pass.Lane.{ingest_docs, records_of, single_records}
use attndb.Serve.Assemble.{memory, Tuning, SingleEncoder, doc_lane}

module _ (F : Floats) where
  open F use {F32}

  -- The encoder gives one vector for each text.
  abbrev pub OnePerText : SingleEncoder F → Type 0
  OnePerText s =
      (texts : List Bytes) (vecs : List (List F32))
      → s.encode_docs texts ≡ some vecs
      → length vecs ≡ length texts

  abbrev pub whole : Document → Chunk
  whole d = record {
    doc_id = d.id;
    span = record { start = 0; end = length d.text };
    text = d.text;
    heading_path = [];
  }

  abbrev pub doc_record : Document → List F32 → Record F
  doc_record d vec = record {
    id = record_id (codes "doc") (whole d);
    doc_id = d.id;
    span = record { start = 0; end = length d.text };
    vector = some vec;
    tokens = record { vecs = []; offsets = [] };
    payload = payload d (whole d);
  }

  -- A record stands under an identifier that the pass gives to chunks of the record's document.
  abbrev pub Keyed : Bytes × Record F → Type 0
  Keyed (id, r) = (c : Chunk) × (id ≡ record_id (codes "doc") c) × (c.doc_id ≡ r.doc_id)

  pub Keyed-Owns :
      (d : Document) (recs : Dict (Record F))
      → All Keyed recs
      → Owns F (record_id (codes "doc") (whole d)) d.id recs
  Keyed-Owns d [] _ = tt
  Keyed-Owns d ((id, r) ∷ recs) ((c, named, owner), keyed) = (
    λ here.
        let same = sym named ∙ bytes_eq→eq id (record_id (codes "doc") (whole d)) here in
        sym owner ∙ (record_id_injective (codes "doc") c (whole d) same).0,
    Keyed-Owns d recs keyed,
  )

  pub delete-Keyed :
      (doc : Bytes) (recs : Dict (Record F)) → All Keyed recs → All Keyed (delete F doc recs)
  unfolding delete
  delete-Keyed doc [] _ = tt
  delete-Keyed doc ((id, r) ∷ recs) (k, keyed) = elim (Bool-cases (bytes_eq r.doc_id doc)) [
    | inl gone ↦ rw gone (delete-Keyed doc recs keyed)
    | inr kept ↦ rw kept (k, delete-Keyed doc recs keyed)
  ]

  insert-Keyed :
      (id : Bytes) (r : Record F) (recs : Dict (Record F))
      → Keyed (id, r)
      → All Keyed recs
      → All Keyed (insert id r recs)
  unfolding insert
  insert-Keyed id r [] k _ = (k, tt)
  insert-Keyed id r ((j, r') ∷ recs) k (k', keyed) = elim (Bool-cases (bytes_eq j id)) [
    | inl here ↦ rw here (k, keyed)
    | inr apart ↦ rw apart (k', insert-Keyed id r recs k keyed)
  ]

  pub stored-Keyed :
      (d : Document) (vec : List F32) (recs : Dict (Record F))
      → All Keyed recs
      → All Keyed (upsert F (doc_record d vec ∷ []) recs)
  unfolding upsert
  stored-Keyed d vec recs keyed =
      insert-Keyed (record_id (codes "doc") (whole d)) (doc_record d vec) recs (whole d, refl, refl)
        keyed

  module _ (t : Tuning F) (s : SingleEncoder F) (one : OnePerText s) where
    -- One document more: either it cannot be encoded, and nothing is stored, or its record is.
    pub ingest_docs-step :
        (d : Document) (docs : List Document) (recs : Dict (Record F))
        → (ingest_docs F (memory F) (doc_lane F s t) (d ∷ docs) recs ≡ (some (codes "doc"), recs))
          ⊎ ((vec : List F32) × (ingest_docs F (memory F) (doc_lane F s t) (d ∷ docs) recs
                ≡ ingest_docs F
                    (memory F)
                    (doc_lane F s t)
                    docs
                    (upsert F (doc_record d vec ∷ []) recs)))
    unfolding ingest_docs doc_lane whole_doc records_of single_records
    ingest_docs-step d docs recs =
        elim (Option-cases (s.encode_docs (encode_text (whole d) ∷ []))) [
          | inl failed ↦ inl (rw failed refl)
          | inr ([], e) ↦ absurd (let n = one (encode_text (whole d) ∷ []) [] e in omega arith)
          | inr (vec ∷ [], e) ↦ inr (vec, rw e refl)
          | inr (vec ∷ w ∷ vecs, e) ↦
              absurd (let n = one (encode_text (whole d) ∷ []) (vec ∷ w ∷ vecs) e in omega arith)
        ]

    pub ingest_docs-Keyed :
        (docs : List Document) (recs : Dict (Record F))
        → All Keyed recs
        → All Keyed (ingest_docs F (memory F) (doc_lane F s t) docs recs).1
    ingest_docs-Keyed [] recs keyed = unfold ingest_docs in keyed
    ingest_docs-Keyed (d ∷ docs) recs keyed = elim (ingest_docs-step d docs recs) [
      | inl e ↦ rw e keyed
      | inr (vec, e) ↦ rw e (
          ingest_docs-Keyed docs (upsert F (doc_record d vec ∷ []) recs)
            (stored-Keyed d vec recs keyed))
    ]
