-- ===== src/Serve/Assemble/Startup.antt =====
-- The reconciler of the daemon over the assembled database: `ingestDB`, `newIngester` and the
-- reconcile at startup of cmd/attndb/serve.go. The query database and the one of a pass share the
-- pools; they differ in the single-vector encoder.
use attndb.Prelude.{
  ◌≡◌, refl, inl, inr, false, Option, none, some, List, [], ◌∷◌, if◌then◌else◌, All, List-cases,
}
use attndb.Prelude.Text.{Bytes, bytes_eq, bytes_eq_refl}
use attndb.Core.Types.{Document}
use attndb.Core.Floats.{Floats}
use attndb.Store.Stamp.{DocStamp}
use attndb.Store.Memory.{stamps}
use attndb.Store.Memory.Deleted.{delete-stamps}
use attndb.Reconcile.Index.{Index, Laws, Error}
use attndb.Reconcile.Passes.{Reconciler, reconcile_all, on_disk}
use attndb.Reconcile.Passes.Sync.{Distinct, Matches}
use attndb.Reconcile.Passes.Full.{reconcile_all-Synced}
use attndb.Reconcile.Passes.Total.{Works, reconcile_all_works}
use attndb.Serve.Assemble.{
  DbPools, Tuning, MultiEncoder, SingleEncoder, ingest_into, delete_from_db, stamps_of_db,
}
use attndb.Serve.Assemble.Documents.{OnePerText, Keyed}
use attndb.Serve.Assemble.Refines.{
  delete_from_db-pools, delete_from_db-Keyed, stamps_of_db-doc, held, ingest_into-stamps,
  ingest_into-Keyed, ingest_into-Total, Total,
}

module _ (F : Floats) where
  -- The shared pools, with what the coming calls of `singleEncoder` give. The documents' pool has
  -- no record but those of the pass `doc`.
  pub record Shared : Type 0 where
    pub pools : DbPools F
    pub starts : List Error
    pub keyed : All (Keyed F) pools.doc

  -- newIngester; `singleEncoder` works where nothing else is said.
  pub new_ingester : Shared → Error × Shared
  new_ingester sh = elim sh.starts [
    | [] ↦ (none, sh)
    | e ∷ rest ↦ (e, record { pools = sh.pools; starts = rest; keyed = sh.keyed })
  ]

  module _ (m : MultiEncoder F) (t : Tuning F) where
    pub session_delete : SingleEncoder F → Bytes → Shared → Error × Shared
    session_delete s id sh = (
      (delete_from_db F m t s (id ∷ []) sh.pools).0,
      record {
        pools = (delete_from_db F m t s (id ∷ []) sh.pools).1;
        starts = sh.starts;
        keyed = delete_from_db-Keyed F m t s id sh.pools sh.keyed;
      },
    )

    pub ingest_shared :
        (s : SingleEncoder F) → OnePerText F s → List Document → Shared → Error × Shared
    ingest_shared s one docs sh = (
      (ingest_into F m t s docs sh.pools).0,
      record {
        pools = (ingest_into F m t s docs sh.pools).1;
        starts = sh.starts;
        keyed = ingest_into-Keyed F m t s one docs sh.pools sh.keyed;
      },
    )

  module _ (m : MultiEncoder F) (t : Tuning F) (query ingest : SingleEncoder F)
      (one_q : OnePerText F query) (one_i : OnePerText F ingest) where
    -- `reconcile.New(root, database, newIngester)`: the reconciler deletes from the query database
    -- and reads its stamps, and ingests into the database of the pass.
    abbrev pub daemon : Index
    daemon = record {
      State = Shared;
      delete = session_delete m t query;
      ingest = ingest_shared m t query one_q;
      session_ingest = ingest_shared m t ingest one_i;
      new_ingester = some new_ingester;
      close = λ sh. sh;
      stamps = λ sh. stamps_of_db F m t query sh.pools;
    }

    abbrev pub stamped : Shared → Bytes → Option DocStamp
    stamped sh j = held F m t sh.pools j

    deleted-stamped :
        (id j : Bytes) (sh : Shared)
        → stamped (session_delete m t query id sh).1 j
          ≡ (if bytes_eq id j then none else stamped sh j)
    unfolding session_delete
    deleted-stamped id j sh =
        rw (delete_from_db-pools F m t query id sh.pools) (delete-stamps F id j sh.pools.doc)

    opened-pools : (sh : Shared) → (new_ingester sh).1.pools ≡ sh.pools
    unfolding new_ingester
    opened-pools sh = elim (List-cases sh.starts) [
      | inl e ↦ rw (e, new_ingester) refl
      | inr (x, rest, e) ↦ rw (e, new_ingester) refl
    ]

    -- The operations of the assembled database keep the laws that the reconciler is proved from.
    pub daemon-Laws : Laws daemon
    unfolding ingest_shared
    daemon-Laws = record {
      view = stamped;
      delete_self = λ id sh ok. rw (deleted-stamped, bytes_eq_refl) refl;
      delete_other = λ id j sh ne. rw (deleted-stamped, ne) refl;
      ingest_self =
          λ d sh gone ok. (ingest_into-stamps F m t query one_q d sh.pools sh.keyed).1 gone ok;
      ingest_other = λ d j sh ne. (ingest_into-stamps F m t query one_q d sh.pools sh.keyed).0 j ne;
      session_self =
          λ d sh gone ok. (ingest_into-stamps F m t ingest one_i d sh.pools sh.keyed).1 gone ok;
      session_other =
          λ d j sh ne. (ingest_into-stamps F m t ingest one_i d sh.pools sh.keyed).0 j ne;
      opened = λ f j sh e. let same : f ≡ new_ingester = cc in rw (same, opened-pools) refl;
      closed = λ j sh. refl;
      read_back = λ sh idx j e.
          let read : idx ≡ stamps F sh.pools.doc = cc (stamps_of_db-doc F m t query sh.pools, e) in
          rw read refl;
    }

    -- Where the encoders never fail and `singleEncoder` gives an encoder each time, no operation
    -- fails.
    works : Total F m t query → Total F m t ingest → Works daemon
    unfolding session_delete ingest_shared new_ingester
    works total_q total_i = record {
      Ready = λ sh. sh.starts ≡ [];
      deletes = λ id sh ready. (rw delete_from_db-pools refl, ready);
      ingests = λ docs sh ready. (ingest_into-Total F m t query docs sh.pools total_q, ready);
      session_ingests =
          λ docs sh ready. (ingest_into-Total F m t ingest docs sh.pools total_i, ready);
      opens = λ f sh e ready.
          let same : f ≡ new_ingester = cc in rw same (rw (ready, new_ingester) (refl, ready));
    }

    -- Of the database assembled over pools in memory, whose operations never fail, in place of the
    -- Qdrant pools that the daemon insists on. The daemon starts with a cold cache over pools that
    -- hold whatever an earlier run left there. If the encoders give one vector for each text and
    -- never fail, each session starts, and the documents of the tree have different identifiers,
    -- then the reconcile at startup ends without an error; afterwards the stamps that the database
    -- gives, which are those of the pool of whole documents only, hold each document of the tree,
    -- with the stamp of its content or one that counts as the same, and no other document. Of the
    -- records in the two other pools nothing is said.
    pub startup-Synced :
        (docs : List Document) (msg : Bytes) (sh : Shared)
        → Total F m t query
        → Total F m t ingest
        → sh.starts ≡ []
        → Distinct docs
        → ((reconcile_all daemon (some docs) msg (record { db = sh; known = []; opened = false })).1
            ≡ none)
          × All
              (λ d. Matches d (
                stamped
                  (reconcile_all daemon
                    (some docs)
                    msg
                    (record { db = sh; known = []; opened = false })).2.db
                  d.id))
              docs
          × ((j : Bytes)
              → on_disk j docs ≡ false
              → stamped
                  (reconcile_all daemon
                    (some docs)
                    msg
                    (record { db = sh; known = []; opened = false })).2.db
                  j
                ≡ none)
    unfolding works daemon-Laws
    startup-Synced docs msg sh total_q total_i ready distinct =
        let start : Reconciler daemon = record { db = sh; known = []; opened = false } in
        let done = reconcile_all_works daemon (works total_q total_i) docs msg start ready in
        let readable = stamps_of_db-doc F m t query sh.pools in
        let synced =
          reconcile_all-Synced daemon daemon-Laws docs msg start
            (inr (refl, (stamps F sh.pools.doc, readable))) distinct done in
        (done, synced.matched, synced.gone)
