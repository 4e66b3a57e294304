-- ===== src/Store/Memory/Collected.antt =====
-- What the loop of topK in internal/store/memory.go collects before it sorts.
use attndb.Prelude.{
  ◌≡◌, refl, subst, Bool, true, Option, some, [], ◌∷◌, if◌then◌else◌, Bool-cases, Option-cases, inl,
  inr, All, Any,
}
use attndb.Prelude.Text.{Bytes, bytes_eq}
use attndb.Prelude.Dict.{Dict, lookup}
use attndb.Core.Types.{Value}
use attndb.Core.Floats.{Floats}
use attndb.Store.Pool.{Record, Scored}
use attndb.Store.Memory.{matches_filters, scored_if, score_all}

module _ (F : Floats) where
  open F use {F32}

  scored_first :
      (score : Record F → Option F32) (filters : Dict Value) (recs : Dict (Record F)) (id : Bytes)
      (r : Record F) (s : F32)
      → matches_filters r.payload filters ≡ true
      → score r ≡ some s
      → Any (λ h. h ≡ record { rec = r; score = s }) (score_all F score filters ((id, r) ∷ recs))
  unfolding score_all scored_if
  scored_first score filters recs id r s m e = rw (m, e) (inl refl)

  scored_later :
      (Q : Scored F → Type 0) (score : Record F → Option F32) (filters : Dict Value)
      (recs : Dict (Record F)) (id : Bytes) (r : Record F)
      → Any Q (score_all F score filters recs)
      → Any Q (score_all F score filters ((id, r) ∷ recs))
  unfolding score_all scored_if
  scored_later Q score filters recs id r h = elim (Bool-cases (matches_filters r.payload filters)) [
    | inr differ ↦ rw differ h
    | inl matched ↦ elim (Option-cases (score r)) [
      | inl unscored ↦ rw (matched, unscored) h
      | inr (s, e) ↦ rw (matched, e) (inr h)
    ]
  ]

  pub score_all-Any :
      (score : Record F → Option F32) (filters : Dict Value) (recs : Dict (Record F)) (id : Bytes)
      (r : Record F) (s : F32)
      → lookup id recs ≡ some r
      → matches_filters r.payload filters ≡ true
      → score r ≡ some s
      → Any (λ h. h ≡ record { rec = r; score = s }) (score_all F score filters recs)
  unfolding lookup
  score_all-Any score filters [] id r s at m e = cc
  score_all-Any score filters ((j, r') ∷ recs) id r s at m e =
      let chosen : Bool → Type 0 = λ b. (if b then some r' else lookup id recs) ≡ some r in
      elim (Bool-cases (bytes_eq j id)) [
        | inl here ↦
            (let same : some r' ≡ some r = subst chosen here at in
              let eq : r ≡ r' = cc in
              subst
                (λ x.
                  Any (λ h. h ≡ record { rec = r; score = s })
                    (score_all F score filters ((j, x) ∷ recs)))
                eq (scored_first score filters recs j r s m e))
        | inr apart ↦
            scored_later (λ h. h ≡ record { rec = r; score = s }) score filters recs j r'
              (score_all-Any score filters recs id r s (subst chosen apart at) m e)
      ]

  pub score_all-All :
      (Q : Scored F → Type 0) (score : Record F → Option F32) (filters : Dict Value)
      (recs : Dict (Record F))
      → All
          (λ (id, r).
            ((s : F32)
              → matches_filters r.payload filters ≡ true
              → score r ≡ some s
              → Q (record { rec = r; score = s })))
          recs
      → All Q (score_all F score filters recs)
  unfolding score_all scored_if
  score_all-All Q score filters [] _ = tt
  score_all-All Q score filters ((j, r) ∷ recs) (h, hs) =
      let rest = score_all-All Q score filters recs hs in
      elim (Bool-cases (matches_filters r.payload filters)) [
        | inr differ ↦ rw differ rest
        | inl matched ↦ elim (Option-cases (score r)) [
          | inl unscored ↦ rw (matched, unscored) rest
          | inr (s, e) ↦ rw (matched, e) (h s matched e, rest)
        ]
      ]
