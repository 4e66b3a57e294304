-- ===== src/Reconcile/Passes/Full.antt =====
-- `ReconcileAll` as a whole: the seeded cache, the two loops, the closed session.
use attndb.Prelude.{
  ℕ, ◌≡◌, refl, sym, subst, ◌∙◌, true, false, none, some, List, [], ◌∷◌, if◌then◌else◌, arith,
  Bool-cases, Option-cases, List-cases, inl, inr, ◌⊎◌, All, All-map, Any,
}
use attndb.Prelude.Text.{Bytes, bytes_eq, bytes_eq→eq, bytes_eq_refl}
use attndb.Prelude.Dict.{Dict, lookup}
use attndb.Core.Types.{Document}
use attndb.Store.Stamp.{DocStamp}
use attndb.Reconcile.Index.{Index, Laws, Error}
use attndb.Reconcile.Passes.{
  Reconciler, close_session, upserts, deletes, on_disk, keys, seed, seeded, then_deletes, closed,
  reconcile_all,
}
use attndb.Reconcile.Passes.Session.{Agrees}
use attndb.Reconcile.Passes.Sync.{
  Distinct, Matches, Upserted, Deleted, upserts-Upserted, deletes-Deleted,
}

lookup-keys :
    (j : Bytes) (known : Dict DocStamp) {st : DocStamp}
    → lookup j known ≡ some st
    → Any (λ id. id ≡ j) (keys known)
unfolding lookup
lookup-keys j [] h = absurd (cc)
lookup-keys j ((id, w) ∷ known) h = elim (Bool-cases (bytes_eq id j)) [
  | inl e ↦ inl (bytes_eq→eq id j e)
  | inr e ↦ inr (lookup-keys j known (rw e at h))
]

on_disk-All : (docs : List Document) → All (λ d. on_disk d.id docs ≡ true) docs
unfolding on_disk
on_disk-All [] = tt
on_disk-All (d ∷ docs) =
    (rw bytes_eq_refl refl, All-map (λ x h. ground (arith, h)) docs (on_disk-All docs))

module _ (I : Index) where
  pub close_idle : (r : Reconciler I) → r.opened ≡ false → close_session I r ≡ r
  unfolding close_session
  close_idle r o = ground arith

  then_deletes_ok :
      (docs : List Document) (u : ℕ × Error × Reconciler I)
      → u.1 ≡ none
      → then_deletes I docs u ≡ deletes I (keys u.2.known) docs u.0 u.2
  unfolding then_deletes
  then_deletes_ok docs (n, e, r) ok = rw (ok, then_deletes)

  then_deletes_failed :
      (docs : List Document) (u : ℕ × Error × Reconciler I) (x : Bytes)
      → u.1 ≡ some x
      → (then_deletes I docs u).1 ≡ some x
  unfolding then_deletes
  then_deletes_failed docs (n, e, r) x bad = rw (bad, then_deletes)

module _ (I : Index) (L : Laws I) where
  open L use {view}

  -- The cache agrees with the index, or it is cold and the index's stamps can be read.
  abbrev pub CanStart : Reconciler I → Type 0
  CanStart r =
      Agrees I L r ⊎ ((r.known ≡ []) × ((idx : Dict DocStamp) × (I.stamps r.db ≡ some idx)))

  read-Agrees :
      (r : Reconciler I) (idx : Dict DocStamp)
      → I.stamps r.db ≡ some idx
      → Agrees I L (record r { known = seeded (I.stamps r.db) })
  unfolding seeded
  read-Agrees r idx e = record { at = λ j. rw (e, seeded) (L.read_back r.db idx j e) }

  -- Seeding keeps a warm cache, and fills a cold one with what the index holds.
  seed-Agrees : (r : Reconciler I) → CanStart r → Agrees I L (seed I r) × ((seed I r).db ≡ r.db)
  unfolding seed
  seed-Agrees r (inl warm) = elim (List-cases r.known) [
    | inl cold ↦ elim (Option-cases (I.stamps r.db)) [
      | inl unread ↦
          rw (cold, seed) (record { at = λ j. rw (unread, seeded) (rw cold at (warm.at j)) }, refl)
      | inr (idx, e) ↦ rw (cold, seed) (read-Agrees r idx e, refl)
    ]
    | inr (k, rest, full) ↦ rw (full, seed) (warm, refl)
  ]
  seed-Agrees r (inr (cold, (idx, e))) = rw (cold, seed) (read-Agrees r idx e, refl)

  -- The index is in step with the tree: it holds each document on disk, with a stamp that counts as its
  -- content, and no other document.
  pub record Synced (docs : List Document) (r : Reconciler I) : Type 0 where
    pub agrees : Agrees I L r
    pub matched : All (λ d. Matches d (view r.db d.id)) docs
    pub gone : (j : Bytes) → on_disk j docs ≡ false → view r.db j ≡ none

  deletes-Synced :
      (docs : List Document) (r₀ r₁ r₂ : Reconciler I)
      → Upserted I L docs r₀ r₁
      → Deleted I L (keys r₁.known) docs r₁ r₂
      → Synced docs r₂
  deletes-Synced docs r₀ r₁ r₂ up del = record {
    agrees = del.agrees;
    matched = keep docs (on_disk-All docs) up.matched;
    gone = λ j out. elim (Option-cases (lookup j r₁.known)) [
      | inl unknown ↦ del.absent j (sym (up.agrees.at j) ∙ unknown)
      | inr (st, known) ↦ del.gone j out (lookup-keys j r₁.known known)
    ];
  }
    where
      keep :
          (ds : List Document)
          → All (λ d. on_disk d.id docs ≡ true) ds
          → All (λ d. Matches d (view r₁.db d.id)) ds
          → All (λ d. Matches d (view r₂.db d.id)) ds
      keep [] there m = tt
      keep (d ∷ ds) (t, there) (m, ms) = (rw (del.kept d.id t) m, keep ds there ms)

  close-Synced :
      (docs : List Document) (r : Reconciler I) → Synced docs r → Synced docs (close_session I r)
  unfolding close_session
  close-Synced docs r s = elim (Bool-cases r.opened) [
    | inl o ↦
        rw (o, if◌then◌else◌)
          (record {
            agrees = record { at = λ j. s.agrees.at j ∙ sym (L.closed j r.db) };
            matched = All-map (λ d m. rw (L.closed d.id r.db) m) docs s.matched;
            gone = λ j out. L.closed j r.db ∙ s.gone j out;
          })
    | inr o ↦ unfold close_session in subst (Synced docs) (sym (close_idle I r o)) s
  ]

  -- If the documents of the tree have different identifiers, and a full pass starts with a cache
  -- that is in step with the index, or with a cold one and an index whose stamps can be read, and
  -- ends without an error, then the index holds each document of the tree, with the stamp of its
  -- content or one that counts as the same, and nothing else, and the cache is again in step with
  -- the index.
  pub reconcile_all-Synced :
      (docs : List Document) (m : Bytes) (r : Reconciler I)
      → CanStart r
      → Distinct docs
      → (reconcile_all I (some docs) m r).1 ≡ none
      → Synced docs (reconcile_all I (some docs) m r).2
  unfolding reconcile_all closed
  reconcile_all-Synced docs m r start distinct ok =
      let u = upserts I docs 0 (seed I r) in
      elim (Option-cases u.1) [
        | inl fine ↦
            let up = upserts-Upserted I L docs 0 (seed I r) (seed-Agrees r start).0 fine distinct in
            let e = then_deletes_ok I docs u fine in
            close-Synced docs (then_deletes I docs u).2 (
              rw e (
                deletes-Synced docs (seed I r) u.2 (deletes I (keys u.2.known) docs u.0 u.2).2 up
                  (deletes-Deleted I L (keys u.2.known) docs u.0 u.2 up.agrees (rw e at ok))))
        | inr (x, failed) ↦ absurd (cc (then_deletes_failed I docs u x failed))
      ]
