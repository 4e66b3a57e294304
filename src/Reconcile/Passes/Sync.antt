-- ===== src/Reconcile/Passes/Sync.antt =====
-- A full pass that ends without an error leaves the index in step with the tree, and the cache in
-- step with the index.
use attndb.Prelude.{
  ℕ, ◌+◌, ◌≡◌, refl, sym, ◌∙◌, ap, true, false, Option, none, some, List, [], ◌∷◌, arith,
  Bool-cases, Option-cases, inl, inr, ◌⊎◌, All, Any,
}
use attndb.Prelude.Text.{Bytes, bytes_eq, bytes_eq→eq}
use attndb.Prelude.Dict.{lookup}
use attndb.Core.Types.{Document}
use attndb.Store.Stamp.{DocStamp, zero_stamp}
use attndb.Reconcile.Index.{Index, Laws, stamp_of}
use attndb.Reconcile.Passes.{
  Reconciler, same_content, known_stamp, apply_upsert, apply_delete, upserts, deletes, on_disk,
}
use attndb.Reconcile.Passes.Session.{Agrees, apply_upsert-Agrees, apply_delete-Agrees}

-- No two documents have one identifier, as the files of one tree have not.
abbrev pub Distinct : List Document → Type 0
Distinct [] = Unit
Distinct (d ∷ docs) = (on_disk d.id docs ≡ false) × Distinct docs

-- The index has the document on disk, with the document's stamp or one that the reconciler takes
-- for the same content.
abbrev pub Matches : Document → Option DocStamp → Type 0
Matches d none = ⊥
Matches d (some st) = (st ≡ stamp_of d) ⊎ (same_content (stamp_of d) st ≡ true)

-- The zero stamp is no document's.
zero_never_same : (st : DocStamp) → same_content st zero_stamp ≡ false
unfolding same_content bytes_eq
zero_never_same st = ground arith

module _ (I : Index) (L : Laws I) where
  open L use {view}

  unchanged-Matches :
      (d : Document) (r : Reconciler I)
      → Agrees I L r
      → same_content (stamp_of d) (known_stamp r.known d.id) ≡ true
      → Matches d (view r.db d.id)
  unfolding known_stamp
  unchanged-Matches d r agrees h = elim (Option-cases (lookup d.id r.known)) [
    | inl e ↦ absurd (cc ((rw (e, known_stamp) at h), zero_never_same (stamp_of d)))
    | inr (st, e) ↦ rw (sym (agrees.at d.id) ∙ e) (inr (rw (e, known_stamp) at h))
  ]

  -- What the loop over the documents on disk has done when it ends without an error.
  pub record Upserted (docs : List Document) (r : Reconciler I) (r' : Reconciler I) : Type 0 where
    pub agrees : Agrees I L r'
    pub others : (j : Bytes) → on_disk j docs ≡ false → view r'.db j ≡ view r.db j
    pub matched : All (λ d. Matches d (view r'.db d.id)) docs

  upserts_skip :
      (d : Document) (docs : List Document) (n : ℕ) (r : Reconciler I)
      → same_content (stamp_of d) (known_stamp r.known d.id) ≡ true
      → upserts I (d ∷ docs) n r ≡ upserts I docs n r
  unfolding upserts
  upserts_skip d docs n r e = rw e

  upserts_apply :
      (d : Document) (docs : List Document) (n : ℕ) (r : Reconciler I)
      → same_content (stamp_of d) (known_stamp r.known d.id) ≡ false
      → (upserts I (d ∷ docs) n r).1 ≡ none
      → ((apply_upsert I d r).0 ≡ none)
        × (upserts I (d ∷ docs) n r ≡ upserts I docs (n + 1) (apply_upsert I d r).1)
  unfolding upserts
  upserts_apply d docs n r e ok = elim (Option-cases (apply_upsert I d r).0) [
    | inl done ↦ (done, rw e (rw (done, upserts)))
    | inr (m, failed) ↦ absurd (cc (rw (failed, upserts) at (rw e at ok)))
  ]

  pub upserts-Upserted :
      (docs : List Document) (n : ℕ) (r : Reconciler I)
      → Agrees I L r
      → (upserts I docs n r).1 ≡ none
      → Distinct docs
      → Upserted docs r (upserts I docs n r).2
  upserts-Upserted [] n r agrees ok distinct =
      unfold upserts in record { agrees = agrees; others = λ j e. refl; matched = tt }
  upserts-Upserted (d ∷ docs) n r agrees ok distinct =
      elim (Bool-cases (same_content (stamp_of d) (known_stamp r.known d.id))) [
        | inl same ↦
            let e = upserts_skip d docs n r same in
            let ih = upserts-Upserted docs n r agrees (rw e at ok) distinct.1 in
            rw e (record {
              agrees = ih.agrees;
              others = λ j out. ih.others j (unfold on_disk in ground arith);
              matched =
                  (rw (ih.others d.id distinct.0) (unchanged-Matches d r agrees same), ih.matched);
            })
        | inr differs ↦
            let (done, e) = upserts_apply d docs n r differs ok in
            let up = apply_upsert-Agrees I L d r agrees done in
            let ih =
              upserts-Upserted docs (n + 1) (apply_upsert I d r).1 up.0 (rw e at ok) distinct.1 in
            rw e (record {
              agrees = ih.agrees;
              others = λ j out.
                  ih.others j (unfold on_disk in ground arith)
                  ∙ up.2 j (unfold on_disk in ground arith);
              matched = (rw (ih.others d.id distinct.0 ∙ up.1) (inl refl), ih.matched);
            })
      ]

  -- The same of the loop over the known documents.
  pub record Deleted (ids : List Bytes) (docs : List Document) (r r' : Reconciler I) : Type 0 where
    pub agrees : Agrees I L r'
    pub kept : (j : Bytes) → on_disk j docs ≡ true → view r'.db j ≡ view r.db j
    pub gone : (j : Bytes) → on_disk j docs ≡ false → Any (λ id. id ≡ j) ids → view r'.db j ≡ none
    pub absent : (j : Bytes) → view r.db j ≡ none → view r'.db j ≡ none

  deletes_skip :
      (id : Bytes) (ids : List Bytes) (docs : List Document) (n : ℕ) (r : Reconciler I)
      → on_disk id docs ≡ true
      → deletes I (id ∷ ids) docs n r ≡ deletes I ids docs n r
  unfolding deletes
  deletes_skip id ids docs n r e = rw e

  deletes_apply :
      (id : Bytes) (ids : List Bytes) (docs : List Document) (n : ℕ) (r : Reconciler I)
      → on_disk id docs ≡ false
      → (deletes I (id ∷ ids) docs n r).1 ≡ none
      → ((apply_delete I id r).0 ≡ none)
        × (deletes I (id ∷ ids) docs n r ≡ deletes I ids docs (n + 1) (apply_delete I id r).1)
  unfolding deletes
  deletes_apply id ids docs n r e ok = elim (Option-cases (apply_delete I id r).0) [
    | inl done ↦ (done, rw e (rw (done, deletes)))
    | inr (m, failed) ↦ absurd (cc (rw (failed, deletes) at (rw e at ok)))
  ]

  -- After a delete of `id`, a document that was absent is absent.
  absent_after :
      (id : Bytes) (r : Reconciler I)
      → Agrees I L r
      → (apply_delete I id r).0 ≡ none
      → (j : Bytes) → view r.db j ≡ none
      → view (apply_delete I id r).1.db j ≡ none
  absent_after id r agrees done j h =
      let del = apply_delete-Agrees I L id r agrees done in
      elim (Bool-cases (bytes_eq id j)) [
        | inl same ↦ ap (view (apply_delete I id r).1.db) (sym (bytes_eq→eq id j same)) ∙ del.1
        | inr ne ↦ del.2 j ne ∙ h
      ]

  pub deletes-Deleted :
      (ids : List Bytes) (docs : List Document) (n : ℕ) (r : Reconciler I)
      → Agrees I L r
      → (deletes I ids docs n r).1 ≡ none
      → Deleted ids docs r (deletes I ids docs n r).2
  deletes-Deleted [] docs n r agrees ok =
      unfold deletes in
      record { agrees = agrees; kept = λ j e. refl; gone = λ j e m. absurd m; absent = λ j h. h }
  deletes-Deleted (id ∷ ids) docs n r agrees ok = elim (Bool-cases (on_disk id docs)) [
    | inl there ↦
        let e = deletes_skip id ids docs n r there in
        let ih = deletes-Deleted ids docs n r agrees (rw e at ok) in
        rw e (record {
          agrees = ih.agrees;
          kept = ih.kept;
          gone = λ j out m. elim m [
            | inl same ↦ absurd (cc (rw same at there))
            | inr later ↦ ih.gone j out later
          ];
          absent = ih.absent;
        })
    | inr missing ↦
        let (done, e) = deletes_apply id ids docs n r missing ok in
        let del = apply_delete-Agrees I L id r agrees done in
        let ih = deletes-Deleted ids docs (n + 1) (apply_delete I id r).1 del.0 (rw e at ok) in
        rw e (record {
          agrees = ih.agrees;
          kept = λ j there. elim (Bool-cases (bytes_eq id j)) [
            | inl same ↦ absurd (cc (rw (bytes_eq→eq id j same) at missing))
            | inr ne ↦ ih.kept j there ∙ del.2 j ne
          ];
          gone = λ j out m. elim m [
            | inl same ↦ ih.absent j (ap (view (apply_delete I id r).1.db) (sym same) ∙ del.1)
            | inr later ↦ ih.gone j out later
          ];
          absent = λ j h. ih.absent j (absent_after id r agrees done j h);
        })
  ]
