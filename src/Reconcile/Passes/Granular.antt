-- ===== src/Reconcile/Passes/Granular.antt =====
-- `Reconcile` on a batch of paths, and what a failed upsert leaves behind.
use attndb.Prelude.{
  ℕ, ◌≡◌, refl, sym, ◌∙◌, subst, false, not, ◌||◌, none, some, List, [], ◌∷◌, if◌then◌else◌,
  Bool-cases, Option-cases, inl, inr, All,
}
use attndb.Prelude.Text.{Bytes, bytes_eq}
use attndb.Prelude.Dict.{lookup}
use attndb.Core.Types.{Document}
use attndb.Corpus.{is_indexable}
use attndb.Reconcile.Index.{Index, Laws, stamp_of}
use attndb.Reconcile.Passes.{
  PathInfo, not_exist, stat_error, directory, regular, Reconciler, same_content, known_stamp,
  close_session, apply_upsert, apply_delete, reconcile_path, reconcile_from, reconcile, closed,
}
use attndb.Reconcile.Passes.Session.{Agrees, apply_upsert-Agrees, apply_delete-Agrees}
use attndb.Reconcile.Passes.Full.{close_idle}

-- `LoadDoc` gives a document the identifier of its path.
abbrev pub Names : Bytes × PathInfo → Type 0
Names (id, regular name m (some doc)) = doc.id ≡ id
Names (id, _) = Unit

module _ (I : Index) (L : Laws I) where
  open L use {view}

  -- What one path without an error does.
  abbrev pub PathDone : Bytes → Reconciler I → Reconciler I → Type 0
  PathDone id r r' =
      Agrees I L r' × ((j : Bytes) → bytes_eq id j ≡ false → view r'.db j ≡ view r.db j)

  path_delete :
      (id : Bytes) (n : ℕ) (r : Reconciler I)
      → Agrees I L r
      → (reconcile_path I id not_exist n r).1 ≡ none
      → PathDone id r (reconcile_path I id not_exist n r).2
        × (view (reconcile_path I id not_exist n r).2.db id ≡ none)
  unfolding reconcile_path
  path_delete id n r agrees ok = elim (Option-cases (lookup id r.known)) [
    | inl unknown ↦
        rw (unknown, reconcile_path) ((agrees, λ j e. refl), sym (agrees.at id) ∙ unknown)
    | inr (st, known) ↦ elim (Option-cases (apply_delete I id r).0) [
      | inl done ↦
          let del = apply_delete-Agrees I L id r agrees done in
          rw (known, reconcile_path) (rw (done, reconcile_path) ((del.0, del.2), del.1))
      | inr (m, failed) ↦
          absurd (cc (rw (failed, reconcile_path) at (rw (known, reconcile_path) at ok)))
    ]
  ]

  path_regular :
      (id name m : Bytes) (doc : Document) (n : ℕ) (r : Reconciler I)
      → Agrees I L r
      → doc.id ≡ id
      → (reconcile_path I id (regular name m (some doc)) n r).1 ≡ none
      → PathDone id r (reconcile_path I id (regular name m (some doc)) n r).2
  unfolding reconcile_path
  path_regular id name m doc n r agrees named ok =
      elim (Bool-cases
        (not (is_indexable name) || same_content (stamp_of doc) (known_stamp r.known id))) [
          | inl skip ↦ rw skip (agrees, λ j e. refl)
          | inr go ↦ elim (Option-cases (apply_upsert I doc r).0) [
            | inl done ↦
                let up = apply_upsert-Agrees I L doc r agrees done in
                rw go (rw (done, reconcile_path) (up.0, λ j e. up.2 j (rw named e)))
            | inr (x, failed) ↦ absurd (cc (rw (failed, reconcile_path) at (rw go at ok)))
          ]
        ]

  reconcile_path-Done :
      (id : Bytes) (info : PathInfo) (n : ℕ) (r : Reconciler I)
      → Agrees I L r
      → Names (id, info)
      → (reconcile_path I id info n r).1 ≡ none
      → PathDone id r (reconcile_path I id info n r).2
  reconcile_path-Done id not_exist n r agrees named ok = (path_delete id n r agrees ok).0
  reconcile_path-Done id (stat_error m) n r agrees named ok =
      unfold reconcile_path in absurd (cc ok)
  reconcile_path-Done id directory n r agrees named ok =
      unfold reconcile_path in (agrees, λ j e. refl)
  reconcile_path-Done id (regular name m none) n r agrees named ok =
      elim (Bool-cases (is_indexable name)) [
        | inl e ↦ unfold reconcile_path in absurd (cc (rw e at ok))
        | inr e ↦ unfold reconcile_path in rw e (agrees, λ j x. refl)
      ]
  reconcile_path-Done id (regular name m (some doc)) n r agrees named ok =
      path_regular id name m doc n r agrees named ok

  -- No path of the batch has the identifier.
  abbrev pub Untouched : Bytes → List (Bytes × PathInfo) → Type 0
  Untouched j = All (λ p. bytes_eq p.0 j ≡ false)

  reconcile_from-Done :
      (paths : List (Bytes × PathInfo)) (n : ℕ) (r : Reconciler I)
      → Agrees I L r
      → All Names paths
      → (reconcile_from I paths n r).1 ≡ none
      → Agrees I L (reconcile_from I paths n r).2
        × ((j : Bytes) → Untouched j paths → view (reconcile_from I paths n r).2.db j ≡ view r.db j)
  unfolding reconcile_from
  reconcile_from-Done [] n r agrees named ok = (agrees, λ j u. refl)
  reconcile_from-Done ((id, info) ∷ paths) n r agrees named ok =
      elim (Option-cases (reconcile_path I id info n r).1) [
        | inl done ↦
            let here = reconcile_path-Done id info n r agrees named.0 done in
            let r' = (reconcile_path I id info n r).2 in
            let rest =
              reconcile_from-Done paths (reconcile_path I id info n r).0 r' here.0 named.1
                (rw (done, reconcile_from) at ok) in
            rw (done, reconcile_from) (rest.0, λ j u. rest.1 j u.1 ∙ here.1 j u.0)
        | inr (m, failed) ↦ absurd (cc (rw (failed, reconcile_from) at ok))
      ]

  close-Agrees :
      (r : Reconciler I)
      → Agrees I L r
      → Agrees I L (close_session I r) × ((j : Bytes) → view (close_session I r).db j ≡ view r.db j)
  unfolding close_session
  close-Agrees r agrees = elim (Bool-cases r.opened) [
    | inl o ↦
        rw (o, if◌then◌else◌)
          (record { at = λ j. agrees.at j ∙ sym (L.closed j r.db) }, λ j. L.closed j r.db)
    | inr o ↦
        subst (λ (s : Reconciler I). Agrees I L s × ((j : Bytes) → view s.db j ≡ view r.db j))
          (sym (close_idle I r o)) (agrees, λ j. refl)
  ]

  -- A granular pass that starts with the cache in step with the index, reads for each path a
  -- document with the path's identifier, and ends without an error leaves the cache in step with
  -- the index, and changes no document but those of its paths.
  pub reconcile-Agrees :
      (paths : List (Bytes × PathInfo)) (r : Reconciler I)
      → Agrees I L r
      → All Names paths
      → (reconcile I paths r).1 ≡ none
      → Agrees I L (reconcile I paths r).2
        × ((j : Bytes) → Untouched j paths → view (reconcile I paths r).2.db j ≡ view r.db j)
  unfolding reconcile closed
  reconcile-Agrees paths r agrees named ok =
      let done = reconcile_from-Done paths 0 r agrees named ok in
      let shut = close-Agrees (reconcile_from I paths 0 r).2 done.0 in
      (shut.0, λ j u. shut.1 j ∙ done.1 j u)
