-- ===== src/Serve/Assemble.antt =====
-- assembleDB, dbPools and tuning of cmd/attndb/main.go over pools in memory, and the database as the
-- reconciler sees it: `ingestDB` and `newIngester` of cmd/attndb/serve.go.
pub mod Documents
pub mod Refines
pub mod Startup
use attndb.Prelude.{ℕ, Option, none, some, List, [], ◌∷◌}
use attndb.Prelude.Int.{pos}
use attndb.Prelude.Text.{Bytes, codes}
use attndb.Prelude.Dict.{Dict}
use attndb.Core.Types.{Document}
use attndb.Core.Floats.{Floats}
use attndb.Core.Vec.{TokenVecs}
use attndb.Chunk.Chunkers.{whole_doc, by_paragraph, by_section}
use attndb.Store.Stamp.{DocStamp}
use attndb.Store.Pool.{Record}
use attndb.Store.Memory.{upsert, delete, stamps, search_single, search_multi}
use attndb.Reconcile.Index.{Error}
use attndb.Pass.Lane.{Pool, Lane, Encoder, single, multi}
use attndb.Db.Compose.{Passes, ingest, delete_docs, db_stamps}

module _ (F : Floats) where
  open F use {F32, F64}

  -- No operation of a pool in memory fails.
  abbrev pub memory : Pool F
  memory = record {
    State = Dict (Record F);
    upsert = λ recs s. (none, upsert F recs s);
    delete = λ id s. (none, delete F id s);
    stamps = λ s. some (stamps F s);
    search_single = λ vec k filters s. some (search_single F vec k filters s);
    search_multi = λ q k filters s. some (search_multi F q k filters s);
  }

  pub record DbPools : Type 0 where
    pub tok : Dict (Record F)
    pub para : Dict (Record F)
    pub doc : Dict (Record F)

  -- The weights; the settings of a search are not needed here.
  pub record Tuning : Type 0 where
    pub w_tok : F64
    pub w_para : F64
    pub w_doc : F64

  pub record MultiEncoder : Type 0 where
    pub encode_docs : List Bytes → Option (List (TokenVecs F))
    pub encode_query : Bytes → Option (TokenVecs F)

  pub record SingleEncoder : Type 0 where
    pub encode_docs : List Bytes → Option (List (List F32))
    pub encode_query : Bytes → Option (List F32)

  unfoldable pub tok_lane : MultiEncoder → Tuning → Lane F
  tok_lane m t = record {
    name = codes "tok-section";
    weight = t.w_tok;
    chunker = by_section (pos 200) (pos 32);
    encoder = multi m.encode_docs m.encode_query;
  }

  unfoldable pub para_lane : SingleEncoder → Tuning → Lane F
  para_lane s t = record {
    name = codes "para";
    weight = t.w_para;
    chunker = by_paragraph;
    encoder = single s.encode_docs s.encode_query;
  }

  unfoldable pub doc_lane : SingleEncoder → Tuning → Lane F
  doc_lane s t = record {
    name = codes "doc";
    weight = t.w_doc;
    chunker = whole_doc;
    encoder = single s.encode_docs s.encode_query;
  }

  unfoldable pub assemble_db : MultiEncoder → SingleEncoder → DbPools → Tuning → Passes F memory
  unfolding tok_lane para_lane doc_lane
  assemble_db m s p t = (tok_lane m t, p.tok) ∷ (para_lane s t, p.para) ∷ (doc_lane s t, p.doc) ∷ []

  -- The pools, which the assembled passes share, after an operation on these.
  unfoldable pub pools_of : DbPools → Passes F memory → DbPools
  pools_of p ((_, tok) ∷ (_, para) ∷ (_, doc) ∷ []) = record { tok = tok; para = para; doc = doc }
  pools_of p _ = p

  module _ (m : MultiEncoder) (t : Tuning) where
    -- Ingest of the database over the given single-vector encoder.
    unfoldable pub ingest_into : SingleEncoder → List Document → DbPools → Error × DbPools
    unfolding assemble_db pools_of
    ingest_into s docs p =
        let (e, passes) = ingest F memory docs (assemble_db m s p t) in (e, pools_of p passes)

    unfoldable pub delete_from_db : SingleEncoder → List Bytes → DbPools → Error × DbPools
    unfolding assemble_db pools_of
    delete_from_db s ids p =
        let (e, passes) = delete_docs F memory ids (assemble_db m s p t) in (e, pools_of p passes)

    unfoldable pub stamps_of_db : SingleEncoder → DbPools → Option (Dict DocStamp)
    unfolding assemble_db
    stamps_of_db s p = db_stamps F memory (assemble_db m s p t)
