-- ===== src/Reconcile/Passes/Total.antt =====
-- A full pass over an index whose operations succeed ends without an error.
use attndb.Prelude.{
  ℕ, ◌+◌, ◌≡◌, refl, Option, none, some, List, [], ◌∷◌, if◌then◌else◌, Bool-cases, List-cases, inl,
  inr,
}
use attndb.Prelude.Text.{Bytes}
use attndb.Core.Types.{Document}
use attndb.Reconcile.Index.{Index, Error, stamp_of}
use attndb.Reconcile.Passes.{
  Reconciler, with_ingester, session_ingest, apply_upsert, apply_delete, upserts, deletes, on_disk,
  keys, seed, same_content, known_stamp, then_deletes, closed, reconcile_all,
}

-- In the states of a class that the operations do not leave, no operation fails.
pub record Works (I : Index) : Type 1 where
  pub Ready : I.State → Type 0
  pub deletes :
      (id : Bytes) (s : I.State) → Ready s → ((I.delete id s).0 ≡ none) × Ready (I.delete id s).1
  pub ingests :
      (docs : List Document) (s : I.State)
      → Ready s
      → ((I.ingest docs s).0 ≡ none) × Ready (I.ingest docs s).1
  pub session_ingests :
      (docs : List Document) (s : I.State)
      → Ready s
      → ((I.session_ingest docs s).0 ≡ none) × Ready (I.session_ingest docs s).1
  pub opens :
      (f : I.State → Error × I.State) (s : I.State)
      → I.new_ingester ≡ some f
      → Ready s
      → ((f s).0 ≡ none) × Ready (f s).1

module _ (I : Index) (W : Works I) where
  open W use {Ready}

  with_ingester_works :
      (o : Option (I.State → Error × I.State)) (docs : List Document) (r : Reconciler I)
      → I.new_ingester ≡ o
      → Ready r.db
      → ((with_ingester I o docs r).0 ≡ none) × Ready (with_ingester I o docs r).1.db
  unfolding with_ingester
  with_ingester_works none docs r e ready = W.ingests docs r.db ready
  with_ingester_works (some build) docs r e ready = elim (Bool-cases r.opened) [
    | inl o ↦ rw (o, if◌then◌else◌) (W.session_ingests docs r.db ready)
    | inr o ↦
        let (ok, ready') = W.opens build r.db e ready in
        rw (o, if◌then◌else◌)
          (rw (ok, with_ingester) (W.session_ingests docs (build r.db).1 ready'))
  ]

  apply_upsert_works :
      (d : Document) (r : Reconciler I)
      → Ready r.db
      → ((apply_upsert I d r).0 ≡ none) × Ready (apply_upsert I d r).1.db
  unfolding apply_upsert session_ingest
  apply_upsert_works d r ready =
      let (ok, ready') = W.deletes d.id r.db ready in
      let (ok', ready'') =
        with_ingester_works I.new_ingester (d ∷ []) (record r { db = (I.delete d.id r.db).1 }) refl
          ready' in
      rw (ok, apply_upsert) (rw (ok', apply_upsert) (refl, ready''))

  apply_delete_works :
      (id : Bytes) (r : Reconciler I)
      → Ready r.db
      → ((apply_delete I id r).0 ≡ none) × Ready (apply_delete I id r).1.db
  unfolding apply_delete
  apply_delete_works id r ready =
      let (ok, ready') = W.deletes id r.db ready in rw (ok, apply_delete) (refl, ready')

  upserts_works :
      (docs : List Document) (changed : ℕ) (r : Reconciler I)
      → Ready r.db
      → ((upserts I docs changed r).1 ≡ none) × Ready (upserts I docs changed r).2.db
  unfolding upserts
  upserts_works [] changed r ready = (refl, ready)
  upserts_works (d ∷ docs) changed r ready =
      elim (Bool-cases (same_content (stamp_of d) (known_stamp r.known d.id))) [
        | inl same ↦ rw (same, if◌then◌else◌) (upserts_works docs changed r ready)
        | inr new ↦
            let (ok, ready') = apply_upsert_works d r ready in
            rw (new, if◌then◌else◌)
              (rw (ok, upserts) (upserts_works docs (changed + 1) (apply_upsert I d r).1 ready'))
      ]

  deletes_works :
      (ids : List Bytes) (docs : List Document) (changed : ℕ) (r : Reconciler I)
      → Ready r.db
      → (deletes I ids docs changed r).1 ≡ none
  unfolding deletes
  deletes_works [] docs changed r ready = refl
  deletes_works (id ∷ ids) docs changed r ready = elim (Bool-cases (on_disk id docs)) [
    | inl there ↦ rw (there, if◌then◌else◌) (deletes_works ids docs changed r ready)
    | inr gone ↦
        let (ok, ready') = apply_delete_works id r ready in
        rw (gone, if◌then◌else◌)
          (rw (ok, deletes) (deletes_works ids docs (changed + 1) (apply_delete I id r).1 ready'))
  ]

  seed-db : (r : Reconciler I) → (seed I r).db ≡ r.db
  unfolding seed
  seed-db r = elim (List-cases r.known) [
    | inl cold ↦ rw (cold, seed) refl
    | inr (k, rest, full) ↦ rw (full, seed) refl
  ]

  then_deletes_works :
      (docs : List Document) (u : ℕ × Error × Reconciler I)
      → (u.1 ≡ none) × Ready u.2.db
      → (then_deletes I docs u).1 ≡ none
  unfolding then_deletes
  then_deletes_works docs (n, e, r) (ok, ready) =
      rw (ok, then_deletes) (deletes_works (keys r.known) docs n r ready)

  -- A full pass over a tree that can be read, on an index that works, ends without an error.
  pub reconcile_all_works :
      (docs : List Document) (m : Bytes) (r : Reconciler I)
      → Ready r.db
      → (reconcile_all I (some docs) m r).1 ≡ none
  unfolding reconcile_all closed
  reconcile_all_works docs m r ready =
      then_deletes_works docs (upserts I docs 0 (seed I r))
        (upserts_works docs 0 (seed I r) (rw seed-db ready))
