-- ===== src/Store/Memory/Nearest.antt =====
-- The searches of the pool in memory give the best matches.
use attndb.Prelude.{
  ℕ, ◌≡◌, refl, arith, Bool, true, false, ◌&&◌, Option, some, List, [], ◌∷◌, length, take,
  length-take, ltb, Bool-cases, ◌⊎◌, inl, inr, All, Any, take-All, All-map,
}
use attndb.Prelude.Text.{Bytes}
use attndb.Prelude.Dict.{Dict, lookup}
use attndb.Prelude.Sort.{sort_by, sort_by-Any, sort_by-All}
use attndb.Prelude.Sort.Ordered.{Ordered, sort_by-Ordered, kept_or_after}
use attndb.Core.Types.{Value}
use attndb.Core.Floats.{Floats}
use attndb.Core.Vec.{TokenVecs}
use attndb.Store.Pool.{Record, Scored}
use attndb.Store.Memory.{
  matches_filters, score_all, cut, top_k, single_score, search_single, multi_score, search_multi,
}
use attndb.Store.Memory.Collected.{score_all-Any, score_all-All}

module _ (F : Floats) where
  open F use {F32, lt32}

  abbrev better : Scored F → Scored F → Bool
  better a b = lt32 b.score a.score

  -- The hit is a record of the pool that matches the filters, with its score.
  abbrev pub IsHit : (Record F → Option F32) → Dict Value → Dict (Record F) → Scored F → Type 0
  IsHit score filters recs h =
      Any (λ (id, r). h.rec ≡ r) recs
      × (matches_filters h.rec.payload filters ≡ true)
      × (score h.rec ≡ some h.score)

  -- The record is among the hits with its score `s`, or there are `k` hits, none lower than `s`.
  abbrev pub IsCounted : ℕ → Record F → F32 → List (Scored F) → Type 0
  IsCounted k r s hits =
      Any (λ h. h ≡ record { rec = r; score = s }) hits
      ⊎ ((length hits ≡ k) × All (λ h. lt32 h.score s ≡ false) hits)

  entries-IsHit :
      (score : Record F → Option F32) (filters : Dict Value) (recs all : Dict (Record F))
      → ((r : Record F) → Any (λ (id, r'). r ≡ r') recs → Any (λ (id, r'). r ≡ r') all)
      → All
          (λ (id, r).
            ((s : F32)
              → matches_filters r.payload filters ≡ true
              → score r ≡ some s
              → IsHit score filters all (record { rec = r; score = s })))
          recs
  entries-IsHit score filters [] all within = tt
  entries-IsHit score filters ((id, r) ∷ recs) all within = (
    λ s m e. (within r (inl refl), m, e),
    entries-IsHit score filters recs all (λ r' h. within r' (inr h)),
  )

  cut-All :
      (Q : Scored F → Type 0) (k : ℕ) (hits : List (Scored F)) → All Q hits → All Q (cut F k hits)
  unfolding cut
  cut-All Q k hits h = elim (Bool-cases (ltb 0 k && ltb k (length hits))) [
    | inl long ↦ rw long (take-All Q k hits h)
    | inr short ↦ rw short h
  ]

  length-cut :
      (k : ℕ) (hits : List (Scored F))
      → ltb 0 k && ltb k (length hits) ≡ true
      → length (take k hits) ≡ k
  length-cut k hits h = ground (arith, length-take k hits)

  cut-IsCounted :
      (k : ℕ) (r : Record F) (s : F32) (scored : List (Scored F))
      → Ordered better scored
      → Any (λ h. h ≡ record { rec = r; score = s }) scored
      → IsCounted k r s (cut F k scored)
  unfolding cut
  cut-IsCounted k r s scored sorted m = elim (Bool-cases (ltb 0 k && ltb k (length scored))) [
    | inl long ↦
        rw long (elim (kept_or_after better k (record { rec = r; score = s }) scored sorted m) [
          | inl here ↦ inl here
          | inr after ↦ inr (length-cut k scored long, after)
        ])
    | inr short ↦ rw short (inl m)
  ]

  module _ (IsNumber : F32 → Type 0)
      (asym : (a b : F32) → IsNumber a → IsNumber b → lt32 a b ≡ true → lt32 b a ≡ false)
      (weak : (a b c : F32)
        → IsNumber a
        → IsNumber b
        → IsNumber c
        → lt32 a b ≡ false
        → lt32 b c ≡ false
        → lt32 a c ≡ false)
      (k : ℕ) (filters : Dict Value) (recs : Dict (Record F)) (id : Bytes) (r : Record F) (s : F32)
      (at : lookup id recs ≡ some r) (matching : matches_filters r.payload filters ≡ true) where
    abbrev Numbers : (Record F → Option F32) → Type 0
    Numbers score = All (λ (id', r'). ((s' : F32) → score r' ≡ some s' → IsNumber s')) recs

    top_k-IsCounted :
        (score : Record F → Option F32)
        → Numbers score
        → score r ≡ some s
        → All (IsHit score filters recs) (top_k F k score filters recs)
          × IsCounted k r s (top_k F k score filters recs)
    unfolding top_k
    top_k-IsCounted score numbers e =
        let scored = score_all F score filters recs in
        let P : Scored F → Type 0 = λ h. IsNumber h.score in
        let nums : All P scored =
          score_all-All F P score filters recs
            (All-map (λ (id', r') f s' m e'. f s' e') recs numbers) in
        let sound : All (IsHit score filters recs) scored =
          score_all-All F (IsHit score filters recs) score filters recs
            (entries-IsHit score filters recs recs (λ r' h. h)) in
        (
          cut-All (IsHit score filters recs) k (sort_by better scored)
              (sort_by-All better (IsHit score filters recs) scored sound),
          cut-IsCounted k r s (sort_by better scored)
              (sort_by-Ordered better P (λ a b pa pb. asym b.score a.score pb pa)
                (λ a b c pa pb pc h h'. weak c.score b.score a.score pc pb pa h' h) scored nums)
              (sort_by-Any better (λ h. h ≡ record { rec = r; score = s }) scored
                (score_all-Any F score filters recs id r s at matching e)),
        )

    -- Let the comparison be a weak order on the numbers among the floats, let each score of a record
    -- be a number, and let a record of the pool match the filters and have the score `s`. Then a
    -- search by a vector gives only records of the pool that match the filters, with their scores,
    -- and the record is among them with its score, or there are `k` of them and none scores lower.
    pub search_single-Nearest :
        (vec : List F32)
        → Numbers (single_score F vec)
        → single_score F vec r ≡ some s
        → All (IsHit (single_score F vec) filters recs) (search_single F vec k filters recs)
          × IsCounted k r s (search_single F vec k filters recs)
    unfolding search_single
    search_single-Nearest vec = top_k-IsCounted (single_score F vec)

    -- The same of a search by token vectors.
    pub search_multi-Nearest :
        (q : TokenVecs F)
        → Numbers (multi_score F q)
        → multi_score F q r ≡ some s
        → All (IsHit (multi_score F q) filters recs) (search_multi F q k filters recs)
          × IsCounted k r s (search_multi F q k filters recs)
    unfolding search_multi
    search_multi-Nearest q = top_k-IsCounted (multi_score F q)
