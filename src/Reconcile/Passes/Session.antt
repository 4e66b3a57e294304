-- ===== src/Reconcile/Passes/Session.antt =====
-- What one upsert and one delete of a pass do to the index and to the cache.
use attndb.Prelude.{
  ◌≡◌, refl, sym, ◌∙◌, ap, false, Option, none, some, List, [], ◌∷◌, if◌then◌else◌, arith,
  Bool-cases, Option-cases, inl, inr,
}
use attndb.Prelude.Text.{Bytes, bytes_eq, bytes_eq→eq}
use attndb.Prelude.Dict.{lookup, insert, remove, lookup-insert, lookup-remove}
use attndb.Core.Types.{Document}
use attndb.Reconcile.Index.{Index, Laws, Error, stamp_of}
use attndb.Reconcile.Passes.{Reconciler, with_ingester, session_ingest, apply_upsert, apply_delete}

module _ (I : Index) (L : Laws I) where
  open L use {view}

  -- The cache holds what the index holds.
  pub record Agrees (r : Reconciler I) : Type 0 where
    pub at : (j : Bytes) → lookup j r.known ≡ view r.db j

  with_ingester-other :
      (o : Option (I.State → Error × I.State)) (d : Document) (j : Bytes) (r : Reconciler I)
      → I.new_ingester ≡ o
      → bytes_eq d.id j ≡ false
      → view (with_ingester I o (d ∷ []) r).1.db j ≡ view r.db j
  unfolding with_ingester
  with_ingester-other none d j r e ne = L.ingest_other d j r.db ne
  with_ingester-other (some build) d j r e ne = elim (Bool-cases r.opened) [
    | inl o ↦ rw (o, if◌then◌else◌) (L.session_other d j r.db ne)
    | inr o ↦ elim (Option-cases (build r.db).0) [
      | inl ok ↦
          rw (o, if◌then◌else◌)
            (rw (ok, with_ingester)
              (L.session_other d j (build r.db).1 ne ∙ L.opened build j r.db e))
      | inr (m, bad) ↦ rw (o, if◌then◌else◌) (rw (bad, with_ingester) (L.opened build j r.db e))
    ]
  ]

  with_ingester-known :
      (o : Option (I.State → Error × I.State)) (docs : List Document) (r : Reconciler I)
      → (with_ingester I o docs r).1.known ≡ r.known
  unfolding with_ingester
  with_ingester-known none docs r = refl
  with_ingester-known (some build) docs r = ground arith

  with_ingester_self :
      (o : Option (I.State → Error × I.State)) (d : Document) (r : Reconciler I)
      → I.new_ingester ≡ o
      → view r.db d.id ≡ none
      → (with_ingester I o (d ∷ []) r).0 ≡ none
      → view (with_ingester I o (d ∷ []) r).1.db d.id ≡ some (stamp_of d)
  unfolding with_ingester
  with_ingester_self none d r e gone ok = L.ingest_self d r.db gone ok
  with_ingester_self (some build) d r e gone ok =
      let gone' = L.opened build d.id r.db e ∙ gone in
      ground (arith, L.session_self d r.db gone, L.session_self d (build r.db).1 gone')

  abbrev deleted : Document → Reconciler I → Reconciler I
  deleted d r = record r { db = (I.delete d.id r.db).1 }

  abbrev ingested : Document → Reconciler I → Reconciler I
  ingested d r = (session_ingest I (d ∷ []) (deleted d r)).1

  upsert_parts :
      (d : Document) (r : Reconciler I)
      → (apply_upsert I d r).0 ≡ none
      → ((I.delete d.id r.db).0 ≡ none)
        × ((session_ingest I (d ∷ []) (deleted d r)).0 ≡ none)
        × ((apply_upsert I d r).1
            ≡ record (ingested d r) { known = insert d.id (stamp_of d) (ingested d r).known })
  unfolding apply_upsert
  upsert_parts d r ok = ground arith

  ingested-other :
      (d : Document) (j : Bytes) (r : Reconciler I)
      → bytes_eq d.id j ≡ false
      → view (ingested d r).db j ≡ view r.db j
  unfolding session_ingest
  ingested-other d j r ne =
      with_ingester-other I.new_ingester d j (deleted d r) refl ne ∙ L.delete_other d.id j r.db ne

  ingested_self :
      (d : Document) (r : Reconciler I)
      → (I.delete d.id r.db).0 ≡ none
      → (session_ingest I (d ∷ []) (deleted d r)).0 ≡ none
      → view (ingested d r).db d.id ≡ some (stamp_of d)
  unfolding session_ingest
  ingested_self d r deleting ok =
      with_ingester_self I.new_ingester d (deleted d r) refl (L.delete_self d.id r.db deleting) ok

  ingested-known : (d : Document) (r : Reconciler I) → (ingested d r).known ≡ r.known
  unfolding session_ingest
  ingested-known d r = with_ingester-known I.new_ingester (d ∷ []) (deleted d r)

  -- A failed upsert leaves the cache as it was.
  pub failed-known :
      (d : Document) (r : Reconciler I) (x : Bytes)
      → (apply_upsert I d r).0 ≡ some x
      → (apply_upsert I d r).1.known ≡ r.known
  unfolding apply_upsert
  failed-known d r x failed = ground (arith, ingested-known d r)

  -- A successful upsert sets the stamp of its document, in the index and in the cache, and touches
  -- no other document.
  pub apply_upsert-Agrees :
      (d : Document) (r : Reconciler I)
      → Agrees r
      → (apply_upsert I d r).0 ≡ none
      → Agrees (apply_upsert I d r).1
        × (view (apply_upsert I d r).1.db d.id ≡ some (stamp_of d))
        × ((j : Bytes) → bytes_eq d.id j ≡ false → view (apply_upsert I d r).1.db j ≡ view r.db j)
  apply_upsert-Agrees d r agrees ok =
      let (deleting, ingesting, e) = upsert_parts d r ok in
      let own = ingested_self d r deleting ingesting in
      let kept = ingested-known d r in
      rw e (
        record {
          at = λ j. elim (Bool-cases (bytes_eq d.id j)) [
            | inl same ↦
                let k = bytes_eq→eq d.id j same in
                rw (lookup-insert, same) (sym (ap (view (ingested d r).db) (sym k) ∙ own))
            | inr ne ↦
                rw (lookup-insert, ne) (rw kept (agrees.at j ∙ sym (ingested-other d j r ne)))
          ];
        },
        own,
        λ j ne. ingested-other d j r ne,
      )

  -- Whether it succeeds or not, an upsert concerns its own document only.
  pub apply_upsert-other :
      (d : Document) (j : Bytes) (r : Reconciler I)
      → bytes_eq d.id j ≡ false
      → (view (apply_upsert I d r).1.db j ≡ view r.db j)
        × (lookup j (apply_upsert I d r).1.known ≡ lookup j r.known)
  unfolding apply_upsert
  apply_upsert-other d j r ne =
      let stored = ingested-other d j r ne in
      let kept = ingested-known d r in
      elim (Option-cases (I.delete d.id r.db).0) [
        | inr (m, failed) ↦ rw (failed, apply_upsert) (L.delete_other d.id j r.db ne, refl)
        | inl ok ↦ elim (Option-cases (session_ingest I (d ∷ []) (deleted d r)).0) [
          | inr (m, failed) ↦
              rw (ok, apply_upsert) (rw (failed, apply_upsert) (stored, ap (lookup j) kept))
          | inl done ↦
              rw (ok, apply_upsert)
                (rw (done, apply_upsert) (stored, rw (lookup-insert, ne) (ap (lookup j) kept)))
        ]
      ]

  -- So does a delete.
  pub apply_delete-other :
      (id j : Bytes) (r : Reconciler I)
      → bytes_eq id j ≡ false
      → (view (apply_delete I id r).1.db j ≡ view r.db j)
        × (lookup j (apply_delete I id r).1.known ≡ lookup j r.known)
  unfolding apply_delete
  apply_delete-other id j r ne = elim (Option-cases (I.delete id r.db).0) [
    | inr (m, failed) ↦ rw (failed, apply_delete) (L.delete_other id j r.db ne, refl)
    | inl ok ↦ rw (ok, apply_delete) (L.delete_other id j r.db ne, rw (lookup-remove, ne) refl)
  ]

  delete_parts :
      (id : Bytes) (r : Reconciler I)
      → (apply_delete I id r).0 ≡ none
      → ((I.delete id r.db).0 ≡ none)
        × ((apply_delete I id r).1
            ≡ record r { db = (I.delete id r.db).1; known = remove id r.known })
  unfolding apply_delete
  delete_parts id r ok = ground arith

  -- A successful delete drops its document from the index and from the cache, and touches no other.
  pub apply_delete-Agrees :
      (id : Bytes) (r : Reconciler I)
      → Agrees r
      → (apply_delete I id r).0 ≡ none
      → Agrees (apply_delete I id r).1
        × (view (apply_delete I id r).1.db id ≡ none)
        × ((j : Bytes) → bytes_eq id j ≡ false → view (apply_delete I id r).1.db j ≡ view r.db j)
  apply_delete-Agrees id r agrees ok =
      let (deleting, e) = delete_parts id r ok in
      let own = L.delete_self id r.db deleting in
      rw e (
        record {
          at = λ j. elim (Bool-cases (bytes_eq id j)) [
            | inl same ↦
                let k = bytes_eq→eq id j same in
                rw (lookup-remove, same) (sym (ap (view (I.delete id r.db).1) (sym k) ∙ own))
            | inr ne ↦ rw (lookup-remove, ne) (agrees.at j ∙ sym (L.delete_other id j r.db ne))
          ];
        },
        own,
        λ j ne. L.delete_other id j r.db ne,
      )
