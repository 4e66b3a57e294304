-- ===== src/Reconcile/Passes.antt =====
-- The two entry points, `ReconcileAll` and `Reconcile`, and what they call. A pass holds the lock
-- from start to end, so it is one function of the state.
pub mod Session
pub mod Sync
pub mod Full
pub mod Granular
pub mod Total
pub mod Lost
use attndb.Prelude.{
  ℕ, zero, suc, ◌+◌, ◌≡◌, Bool, true, false, not, ◌&&◌, ◌||◌, Option, none, some, List, [], ◌∷◌,
  map, length, if◌then◌else◌,
}
use attndb.Prelude.Int.{ℤ, pos, negsuc}
use attndb.Prelude.Text.{Bytes, bytes_eq}
use attndb.Prelude.Dict.{Dict, lookup, insert, remove}
use attndb.Core.Types.{Document}
use attndb.Store.Stamp.{DocStamp, zero_stamp}
use attndb.Store.Memory.{int_eq}
use attndb.Corpus.{is_indexable}
use attndb.Reconcile.Index.{Index, Error, stamp_of}

-- The content hash decides where both sides have one, the time of modification otherwise.
unfoldable pub same_content : DocStamp → DocStamp → Bool
unfolding bytes_eq
same_content disk known =
    if not (bytes_eq disk.sha []) && not (bytes_eq known.sha [])
    then bytes_eq disk.sha known.sha
    else not (int_eq known.mtime (pos 0)) && int_eq disk.mtime known.mtime

-- r.known[id], the zero stamp where there is none
unfoldable pub known_stamp : Dict DocStamp → Bytes → DocStamp
unfolding lookup
known_stamp known id = elim (lookup id known) [ none ↦ zero_stamp | some st ↦ st ]

-- `os.Stat` and `LoadDoc` of a path of a batch.
pub data PathInfo : Type 0 where
  not_exist : PathInfo
  stat_error : Bytes → PathInfo
  directory : PathInfo
  -- a file with its base name and, if it can be read, its document, or the error
  regular : Bytes → Bytes → Option Document → PathInfo

unfoldable pub on_disk : Bytes → List Document → Bool
on_disk id [] = false
on_disk id (d ∷ docs) = bytes_eq d.id id || on_disk id docs

abbrev pub keys : Dict DocStamp → List Bytes
keys [] = []
keys ((id, st) ∷ known) = id ∷ keys known

seeded : Option (Dict DocStamp) → Dict DocStamp
seeded none = []
seeded (some idx) = idx

module _ (I : Index) where
  open I use {State}

  -- The index, the cache, and whether this pass has opened an ingester.
  pub record Reconciler : Type 0 where
    pub db : State
    pub known : Dict DocStamp
    pub opened : Bool

  -- ingestSession.ingest: the ingester is built on the first upsert of a pass.
  with_ingester : Option (State → Error × State) → List Document → Reconciler → Error × Reconciler
  with_ingester none docs r = let (e, db) = I.ingest docs r.db in (e, record r { db = db })
  with_ingester (some build) docs r =
      if r.opened
      then (let (e, db) = I.session_ingest docs r.db in (e, record r { db = db }))
      else (let (e, db) = build r.db in
          elim e [
            | none ↦
                (let (e', db') = I.session_ingest docs db in
                  (e', record r { db = db'; opened = true }))
            | some m ↦ (some m, record r { db = db })
          ])

  unfoldable pub session_ingest : List Document → Reconciler → Error × Reconciler
  unfolding with_ingester
  session_ingest docs r = with_ingester I.new_ingester docs r

  -- ingestSession.close
  unfoldable pub close_session : Reconciler → Reconciler
  close_session r = if r.opened then record r { db = I.close r.db; opened = false } else r

  unfoldable pub apply_upsert : Document → Reconciler → Error × Reconciler
  unfolding session_ingest insert
  apply_upsert d r =
      let (e, db) = I.delete d.id r.db in
      elim e [
        | some m ↦ (some m, record r { db = db })
        | none ↦
            (let (e', r') = session_ingest (d ∷ []) (record r { db = db }) in
              elim e' [
                | some m ↦ (some m, r')
                | none ↦ (none, record r' { known = insert d.id (stamp_of d) r'.known })
              ])
      ]

  unfoldable pub apply_delete : Bytes → Reconciler → Error × Reconciler
  unfolding remove
  apply_delete id r =
      let (e, db) = I.delete id r.db in
      elim e [
        | some m ↦ (some m, record r { db = db })
        | none ↦ (none, record r { db = db; known = remove id r.known })
      ]

  -- The loop over the documents on disk; `changed` counts also where an error ends it.
  unfoldable pub upserts : List Document → ℕ → Reconciler → ℕ × Error × Reconciler
  upserts [] changed r = (changed, none, r)
  upserts (d ∷ docs) changed r =
      let unchanged = upserts docs changed r in
      let applied : ℕ × Error × Reconciler =
        (let (e, r') = apply_upsert d r in
          elim e [ some m ↦ (changed, some m, r') | none ↦ upserts docs (changed + 1) r' ]) in
      if same_content (stamp_of d) (known_stamp r.known d.id) then unchanged else applied

  -- The loop over the known documents, whose keys are taken when it starts.
  unfoldable pub deletes : List Bytes → List Document → ℕ → Reconciler → ℕ × Error × Reconciler
  unfolding on_disk
  deletes [] docs changed r = (changed, none, r)
  deletes (id ∷ ids) docs changed r =
      let kept = deletes ids docs changed r in
      let applied : ℕ × Error × Reconciler =
        (let (e, r') = apply_delete id r in
          elim e [ some m ↦ (changed, some m, r') | none ↦ deletes ids docs (changed + 1) r' ]) in
      if on_disk id docs then kept else applied

  -- The cache is seeded from the index where it is empty.
  unfoldable pub seed : Reconciler → Reconciler
  unfolding seeded
  seed r = elim r.known [ [] ↦ record r { known = seeded (I.stamps r.db) } | _ ∷ _ ↦ r ]

  unfoldable pub then_deletes : List Document → ℕ × Error × Reconciler → ℕ × Error × Reconciler
  then_deletes docs (changed, e, r) = elim e [
    | some m ↦ (changed, some m, r)
    | none ↦ deletes (keys r.known) docs changed r
  ]

  unfoldable pub closed : ℕ × Error × Reconciler → ℕ × Error × Reconciler
  unfolding close_session
  closed (changed, e, r) = (changed, e, close_session r)

  -- `docs` is what `LoadDir` gives, none where it fails with the error `m`.
  unfoldable pub reconcile_all :
      Option (List Document) → Bytes → Reconciler → ℕ × Error × Reconciler
  unfolding seed upserts then_deletes closed
  reconcile_all none m r = (0, some m, r)
  reconcile_all (some docs) m r = closed (then_deletes docs (upserts docs 0 (seed r)))

  -- One path of a batch, with the identifier that `DocID` gives it.
  unfoldable pub reconcile_path : Bytes → PathInfo → ℕ → Reconciler → ℕ × Error × Reconciler
  unfolding lookup
  reconcile_path id not_exist changed r = elim (lookup id r.known) [
    | none ↦ (changed, none, r)
    | some _ ↦
        (let (e, r') = apply_delete id r in
          elim e [ some m ↦ (changed, some m, r') | none ↦ (changed + 1, none, r') ])
  ]
  reconcile_path id (stat_error m) changed r = (changed, some m, r)
  reconcile_path id directory changed r = (changed, none, r)
  reconcile_path id (regular name m none) changed r =
      if is_indexable name then (changed, some m, r) else (changed, none, r)
  reconcile_path id (regular name m (some doc)) changed r =
      if not (is_indexable name) || same_content (stamp_of doc) (known_stamp r.known id)
      then (changed, none, r)
      else (let (e, r') = apply_upsert doc r in
          elim e [ some m' ↦ (changed, some m', r') | none ↦ (changed + 1, none, r') ])

  unfoldable pub reconcile_from : List (Bytes × PathInfo) → ℕ → Reconciler → ℕ × Error × Reconciler
  reconcile_from [] changed r = (changed, none, r)
  reconcile_from ((id, info) ∷ paths) changed r =
      let (changed', e, r') = reconcile_path id info changed r in
      elim e [ some m ↦ (changed', some m, r') | none ↦ reconcile_from paths changed' r' ]

  unfoldable pub reconcile : List (Bytes × PathInfo) → Reconciler → ℕ × Error × Reconciler
  unfolding reconcile_from closed
  reconcile paths r = closed (reconcile_from paths 0 r)

  -- Count
  unfoldable pub count : Reconciler → ℕ
  count r = length r.known
