-- ===== src/Reconcile/Passes/Lost.antt =====
-- A document that a failed upsert has dropped from the index, while the cache keeps its old stamp.
use attndb.Prelude.{
  ℕ, ◌+◌, ◌≡◌, refl, ◌∙◌, ap, true, false, not, ◌||◌, none, some, List, [], ◌∷◌, Bool-cases,
  Option-cases, List-cases, inl, inr, All,
}
use attndb.Prelude.Text.{Bytes, bytes_eq, bytes_eq→eq}
use attndb.Prelude.Dict.{lookup}
use attndb.Core.Types.{Document}
use attndb.Store.Stamp.{DocStamp}
use attndb.Corpus.{is_indexable}
use attndb.Reconcile.Index.{Index, Laws, Error, stamp_of}
use attndb.Reconcile.Passes.{
  PathInfo, regular, Reconciler, same_content, known_stamp, close_session, apply_upsert,
  apply_delete, upserts, deletes, on_disk, keys, seed, seeded, then_deletes, closed, reconcile_all,
  reconcile_path, reconcile_from, reconcile,
}
use attndb.Reconcile.Passes.Session.{failed-known, apply_upsert-other, apply_delete-other}

module _ (I : Index) (L : Laws I) (j : Bytes) (st : DocStamp) where
  open L use {view}

  -- The cache has the stamp for the document, which the index has not.
  abbrev pub IsLost : Reconciler I → Type 0
  IsLost r = (lookup j r.known ≡ some st) × (view r.db j ≡ none)

  -- The tree has the document, with a content that counts as the one of the stamp.
  abbrev pub HasOld : List Document → Type 0
  HasOld docs =
      (on_disk j docs ≡ true)
      × All (λ d. bytes_eq d.id j ≡ true → same_content (stamp_of d) st ≡ true) docs

  skipped :
      (d : Document) (r : Reconciler I)
      → IsLost r
      → (bytes_eq d.id j ≡ true → same_content (stamp_of d) st ≡ true)
      → same_content (stamp_of d) (known_stamp r.known d.id) ≡ false
      → bytes_eq d.id j ≡ false
  unfolding known_stamp
  skipped d r (cached, gone) old differs = elim (Bool-cases (bytes_eq d.id j)) [
    | inr ne ↦ ne
    | inl same ↦
        let found : lookup d.id r.known ≡ some st =
          ap (λ k. lookup k r.known) (bytes_eq→eq d.id j same) ∙ cached in
        let yes = old same in absurd (cc (rw (found, known_stamp) at differs, yes))
  ]

  upserts-IsLost :
      (docs : List Document) (n : ℕ) (r : Reconciler I)
      → All (λ d. bytes_eq d.id j ≡ true → same_content (stamp_of d) st ≡ true) docs
      → IsLost r
      → IsLost (upserts I docs n r).2
  unfolding upserts
  upserts-IsLost [] n r _ lost = lost
  upserts-IsLost (d ∷ docs) n r (old, olds) lost =
      elim (Bool-cases (same_content (stamp_of d) (known_stamp r.known d.id))) [
        | inl same ↦ rw same (upserts-IsLost docs n r olds lost)
        | inr differs ↦
            let (stored, cached) = apply_upsert-other I L d j r (skipped d r lost old differs) in
            let lost' : IsLost (apply_upsert I d r).1 = (cached ∙ lost.0, stored ∙ lost.1) in
            elim (Option-cases (apply_upsert I d r).0) [
              | inl done ↦ rw differs (
                  rw (done, upserts)
                    (upserts-IsLost docs (n + 1) (apply_upsert I d r).1 olds lost'))
              | inr (m, failed) ↦ rw differs (rw (failed, upserts) lost')
            ]
      ]

  deletes-IsLost :
      (ids : List Bytes) (docs : List Document) (n : ℕ) (r : Reconciler I)
      → on_disk j docs ≡ true
      → IsLost r
      → IsLost (deletes I ids docs n r).2
  unfolding deletes
  deletes-IsLost [] docs n r there lost = lost
  deletes-IsLost (id ∷ ids) docs n r there lost = elim (Bool-cases (on_disk id docs)) [
    | inl kept ↦ rw kept (deletes-IsLost ids docs n r there lost)
    | inr missing ↦
        let ne : bytes_eq id j ≡ false = elim (Bool-cases (bytes_eq id j)) [
          | inl same ↦ absurd (cc (rw (bytes_eq→eq id j same) at missing, there))
          | inr ne ↦ ne
        ] in
        let (stored, cached) = apply_delete-other I L id j r ne in
        let lost' : IsLost (apply_delete I id r).1 = (cached ∙ lost.0, stored ∙ lost.1) in
        elim (Option-cases (apply_delete I id r).0) [
          | inl done ↦ rw missing (
              rw (done, deletes)
                (deletes-IsLost ids docs (n + 1) (apply_delete I id r).1 there lost'))
          | inr (m, failed) ↦ rw missing (rw (failed, deletes) lost')
        ]
  ]

  then_deletes-IsLost :
      (docs : List Document) (u : ℕ × Error × Reconciler I)
      → on_disk j docs ≡ true
      → IsLost u.2
      → IsLost (then_deletes I docs u).2
  unfolding then_deletes
  then_deletes-IsLost docs (n, none, r) there lost =
      deletes-IsLost (keys r.known) docs n r there lost
  then_deletes-IsLost docs (n, some m, r) there lost = lost

  close-IsLost : (r : Reconciler I) → IsLost r → IsLost (close_session I r)
  unfolding close_session
  close-IsLost r (cached, gone) = elim (Bool-cases r.opened) [
    | inl o ↦ rw o (cached, L.closed j r.db ∙ gone)
    | inr o ↦ rw o (cached, gone)
  ]

  warm_seed : (r : Reconciler I) → IsLost r → seed I r ≡ r
  unfolding seed lookup
  warm_seed r (cached, gone) = elim (List-cases r.known) [
    | inl cold ↦ absurd (cc (rw cold at cached))
    | inr (k, rest, warm) ↦
        ap (λ known. elim known [ [] ↦ record r { known = seeded (I.stamps r.db) } | _ ∷ _ ↦ r ])
          warm
  ]

  -- A full pass over such a tree, whether it ends in an error or not.
  reconcile_all-IsLost :
      (docs : List Document) (m : Bytes) (r : Reconciler I)
      → HasOld docs
      → IsLost r
      → IsLost (reconcile_all I (some docs) m r).2
  unfolding reconcile_all closed
  reconcile_all-IsLost docs m r (there, olds) lost = rw (warm_seed r lost) (
      close-IsLost (then_deletes I docs (upserts I docs 0 r)).2
        (then_deletes-IsLost docs (upserts I docs 0 r) there (upserts-IsLost docs 0 r olds lost)))

  -- Full passes over the trees, one after the other.
  abbrev pub full_passes : List (List Document) → Reconciler I → Reconciler I
  full_passes [] r = r
  full_passes (docs ∷ trees) r = full_passes trees (reconcile_all I (some docs) [] r).2

  full_passes-IsLost :
      (trees : List (List Document)) (r : Reconciler I)
      → All HasOld trees
      → IsLost r
      → IsLost (full_passes trees r)
  full_passes-IsLost [] r _ lost = lost
  full_passes-IsLost (docs ∷ trees) r (old, olds) lost =
      full_passes-IsLost trees (reconcile_all I (some docs) [] r).2 olds
        (reconcile_all-IsLost docs [] r old lost)

  failed_path-known :
      (name m x : Bytes) (d : Document) (r : Reconciler I)
      → (reconcile_path I j (regular name m (some d)) 0 r).1 ≡ some x
      → (reconcile_path I j (regular name m (some d)) 0 r).2.known ≡ r.known
  unfolding reconcile_path
  failed_path-known name m x d r failed =
      elim (Bool-cases
        (not (is_indexable name) || same_content (stamp_of d) (known_stamp r.known j))) [
          | inl skip ↦ absurd (cc (rw skip at failed))
          | inr go ↦ elim (Option-cases (apply_upsert I d r).0) [
            | inl done ↦ absurd (cc (rw (done, reconcile_path) at (rw go at failed)))
            | inr (y, bad) ↦ rw go (rw (bad, reconcile_path) (failed-known I L d r y bad))
          ]
        ]

  close-known : (r : Reconciler I) → (close_session I r).known ≡ r.known
  unfolding close_session
  close-known r = elim (Bool-cases r.opened) [ inl o ↦ rw o refl | inr o ↦ rw o refl ]

  one_path :
      (p : Bytes × PathInfo) (r : Reconciler I) (x : Bytes)
      → (reconcile I (p ∷ []) r).1 ≡ some x
      → ((reconcile_path I p.0 p.1 0 r).1 ≡ some x)
        × ((reconcile I (p ∷ []) r).2 ≡ close_session I (reconcile_path I p.0 p.1 0 r).2)
  unfolding reconcile reconcile_from closed
  one_path (id, info) r x failed = elim (Option-cases (reconcile_path I id info 0 r).1) [
    | inl done ↦ absurd (cc (rw (done, reconcile_from) at failed))
    | inr (y, bad) ↦ (cc (rw (bad, reconcile_from) at failed, bad), rw (bad, reconcile_from) refl)
  ]

  failed-cached :
      (name m x : Bytes) (d : Document) (r : Reconciler I)
      → (reconcile I ((j, regular name m (some d)) ∷ []) r).1 ≡ some x
      → lookup j (reconcile I ((j, regular name m (some d)) ∷ []) r).2.known ≡ lookup j r.known
  failed-cached name m x d r failed =
      let (bad, left) = one_path (j, regular name m (some d)) r x failed in
      let kept = failed_path-known name m x d r bad in
      ap (λ (s : Reconciler I). lookup j s.known) left
      ∙ ap (lookup j) (close-known (reconcile_path I j (regular name m (some d)) 0 r).2 ∙ kept)

  -- If a granular pass over one changed file fails and leaves its document out of the index, where
  -- the cache has a stamp for it, and the file then has a content again that counts as the one of
  -- that stamp, then the document stays out of the index for all full passes that follow, whatever
  -- else they find and whether they end in errors or not.
  pub failed_upsert_lost :
      (name m x : Bytes) (d : Document) (trees : List (List Document)) (r : Reconciler I)
      → lookup j r.known ≡ some st
      → (reconcile I ((j, regular name m (some d)) ∷ []) r).1 ≡ some x
      → view (reconcile I ((j, regular name m (some d)) ∷ []) r).2.db j ≡ none
      → All HasOld trees
      → view (full_passes trees (reconcile I ((j, regular name m (some d)) ∷ []) r).2).db j ≡ none
  failed_upsert_lost name m x d trees r cached failed gone olds =
      (full_passes-IsLost trees (reconcile I ((j, regular name m (some d)) ∷ []) r).2 olds
        (failed-cached name m x d r failed ∙ cached, gone)).1
