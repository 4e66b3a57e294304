-- ===== src/Pass/Lane.antt =====
-- `SingleVectorPass` and `PerTokenPass` of internal/pass/pass.go, over a pool and an encoder.
use attndb.Prelude.{ℕ, Option, none, some, List, [], ◌∷◌, map, length, if◌then◌else◌, ltb}
use attndb.Prelude.Int.{pos, ltb_ℤ}
use attndb.Prelude.Text.{Bytes}
use attndb.Prelude.Dict.{Dict}
use attndb.Core.Spans.{Span, len}
use attndb.Core.Types.{Value, Document, Chunk, Query}
use attndb.Core.Floats.{Floats}
use attndb.Core.Vec.{TokenVecs, max_sim}
use attndb.Store.Stamp.{DocStamp}
use attndb.Store.Pool.{Record, Scored}
use attndb.Reconcile.Index.{Error}
use attndb.Pass.Coords.{encode_text, to_doc_coords, matched_span, record_id, payload}

module _ (F : Floats) where
  open F use {F32, F64, one32, div32, of_ℕ32}

  -- The interface Pool of internal/store/pool.go, on a state. A search is none where it fails.
  pub record Pool : Type 1 where
    pub State : Type 0
    pub upsert : List (Record F) → State → Error × State
    pub delete : Bytes → State → Error × State
    pub stamps : State → Option (Dict DocStamp)
    pub search_single : List F32 → ℕ → Dict Value → State → Option (List (Scored F))
    pub search_multi : TokenVecs F → ℕ → Dict Value → State → Option (List (Scored F))

  -- The encoders, which give one result for each text, or none where they fail.
  pub data Encoder : Type 0 where
    single : (List Bytes → Option (List (List F32))) → (Bytes → Option (List F32)) → Encoder
    multi : (List Bytes → Option (List (TokenVecs F))) → (Bytes → Option (TokenVecs F)) → Encoder

  pub record Lane : Type 0 where
    pub name : Bytes
    pub weight : F64
    pub chunker : Document → List Chunk
    pub encoder : Encoder

  pub record Candidate : Type 0 where
    pub doc_id : Bytes
    pub span : Span
    pub score : F32
    pub source : Bytes

  unfoldable pub single_records : Bytes → Document → List Chunk → List (List F32) → List (Record F)
  single_records name d (c ∷ chunks) (vec ∷ vecs) =
      record {
        id = record_id name c;
        doc_id = c.doc_id;
        span = c.span;
        vector = some vec;
        tokens = record { vecs = []; offsets = [] };
        payload = payload d c;
      }
      ∷ single_records name d chunks vecs
  single_records name d _ _ = []

  unfoldable pub token_records :
      Bytes → Document → List Chunk → List (TokenVecs F) → List (Record F)
  token_records name d (c ∷ chunks) (tv ∷ tvs) =
      record {
        id = record_id name c;
        doc_id = c.doc_id;
        span = c.span;
        vector = none;
        tokens = to_doc_coords F tv c (encode_text c);
        payload = payload d c;
      }
      ∷ token_records name d chunks tvs
  token_records name d _ _ = []

  -- The records of one document, none where the encoder fails.
  unfoldable pub records_of : Bytes → Encoder → Document → List Chunk → Option (List (Record F))
  records_of name (single docs query) d chunks = elim (docs (map encode_text chunks)) [
    | none ↦ none
    | some vecs ↦ some (single_records name d chunks vecs)
  ]
  records_of name (multi docs query) d chunks = elim (docs (map encode_text chunks)) [
    | none ↦ none
    | some tvs ↦ some (token_records name d chunks tvs)
  ]

  single_candidate : Bytes → Scored F → Candidate
  single_candidate name h = record {
    doc_id = h.rec.doc_id;
    span = h.rec.span;
    score = h.score;
    source = name;
  }

  -- The matched tokens of a hit, if there are any, narrow its span.
  unfoldable pub refined_span : TokenVecs F → Record F → Span
  unfolding len
  refined_span qt r =
      let s = matched_span F r.tokens (max_sim F qt r.tokens).1 in
      if ltb 0 (length (max_sim F qt r.tokens).1)
      then (if ltb_ℤ (pos 0) (len s) then s else r.span)
      else r.span

  token_candidate : Bytes → TokenVecs F → Scored F → Candidate
  token_candidate name qt h = record {
    doc_id = h.rec.doc_id;
    span = refined_span qt h.rec;
    score = div32 h.score (if ltb 0 (length qt.vecs) then of_ℕ32 (length qt.vecs) else one32);
    source = name;
  }

  module _ (P : Pool) where
    open P use {State}

    -- Ingest: documents with no chunk are skipped, and an error ends the loop.
    unfoldable pub ingest_docs : Lane → List Document → State → Error × State
    ingest_docs p [] s = (none, s)
    ingest_docs p (d ∷ docs) s =
        let skipped = ingest_docs p docs s in
        let stored : Error × State = elim (records_of p.name p.encoder d (p.chunker d)) [
          | none ↦ (some p.name, s)
          | some recs ↦
              (let (e, s') = P.upsert recs s in
                elim e [ some m ↦ (some m, s') | none ↦ ingest_docs p docs s' ])
        ] in
        if ltb 0 (length (p.chunker d)) then stored else skipped

    -- Deposits; none where encoding or searching fails.
    unfoldable pub query_pool : Bytes → Encoder → Query → ℕ → State → Option (List Candidate)
    unfolding single_candidate token_candidate
    query_pool name (single docs query) q k s = elim (query q.text) [
      | none ↦ none
      | some vec ↦ elim (P.search_single vec k q.filters s) [
        | none ↦ none
        | some hits ↦ some (map (single_candidate name) hits)
      ]
    ]
    query_pool name (multi docs query) q k s = elim (query q.text) [
      | none ↦ none
      | some qt ↦ elim (P.search_multi qt k q.filters s) [
        | none ↦ none
        | some hits ↦ some (map (token_candidate name qt) hits)
      ]
    ]

    unfoldable pub pass_deposits : Lane → Query → ℕ → State → Option (List Candidate)
    unfolding query_pool
    pass_deposits p q k s = query_pool p.name p.encoder q k s
