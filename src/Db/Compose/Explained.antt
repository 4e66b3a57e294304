-- ===== src/Db/Compose/Explained.antt =====
-- What `Explain` shows is what `Search` ranks.
use attndb.Prelude.{ℕ, ◌≡◌, refl, sym, ap, ◌∙◌, some, List, [], ◌∷◌, ◌++◌, Option-cases, inl, inr}
use attndb.Core.Types.{Query}
use attndb.Core.Floats.{Floats}
use attndb.Heat.Density.{Deposit}
use attndb.Heat.Accumulate.{Ranging}
use attndb.Pass.Lane.{Pool, Candidate, pass_deposits}
use attndb.Db.Compose.{
  Settings, Passes, PassExplain, Hit, ExplainCand, deposits_from, explain_cands, normalized,
  explain_pass, gather, search, explain, fuse,
}

module _ (F : Floats) (P : Pool F) where
  -- The contributions that are shown for one pass, as deposits.
  abbrev pub deposits_of : List (ExplainCand F) → List (Deposit F)
  deposits_of [] = []
  deposits_of (c ∷ cands) =
      record { doc_id = c.doc_id; span = c.span; weight = c.contribution } ∷ deposits_of cands

  -- The contributions of the breakdown, in its order.
  abbrev pub shown : List (PassExplain F) → List (Deposit F)
  shown [] = []
  shown (pe ∷ ex) = deposits_of pe.cands ++ shown ex

  -- What is deposited for a pass is what is shown for it.
  deposits-shown :
      (w : F.F64) (cands : List (Candidate F)) (norm : List F.F64)
      → deposits_from F w cands norm ≡ deposits_of (explain_cands F w cands norm)
  unfolding deposits_from explain_cands
  deposits-shown w [] norm = refl
  deposits-shown w (c ∷ cands) [] = refl
  deposits-shown w (c ∷ cands) (n ∷ norm) =
      ap (λ ds. record { doc_id = c.doc_id; span = c.span; weight = F.mul64 w n } ∷ ds)
        (deposits-shown w cands norm)

  gather-shown :
      (d : Settings F) (q : Query) (passes : Passes F P) (deposits : List (Deposit F))
      (ex : List (PassExplain F))
      → gather F P d q passes ≡ some (deposits, ex)
      → deposits ≡ shown ex
  unfolding gather explain_pass
  gather-shown d q [] deposits ex e =
      let none_left : ex ≡ [] = cc e in
      let empty : deposits ≡ [] = cc e in empty ∙ ap shown (sym none_left)
  gather-shown d q ((p, s) ∷ passes) deposits ex e =
      elim (Option-cases (pass_deposits F P p q d.recall_k s)) [
        | inl failed ↦ absurd (cc (rw (failed, gather) at e))
        | inr (cands, found) ↦ elim (Option-cases (gather F P d q passes)) [
          | inl failed ↦ absurd (cc (rw (failed, gather) at (rw (found, gather) at e)))
          | inr ((rest, more), ok) ↦
              let made = rw (ok, gather) at (rw (found, gather) at e) in
              let below = gather-shown d q passes rest more ok in
              let all : ex ≡ explain_pass F d p cands ∷ more = cc made in
              let sum : deposits
                  ≡ deposits_from F p.weight cands (normalized F d p.name cands) ++ rest =
                cc made in
              let own = deposits-shown p.weight cands (normalized F d p.name cands) in
              sum
              ∙ ap (λ ds. deposits_from F p.weight cands (normalized F d p.name cands) ++ ds) below
              ∙ ap (λ ds. ds ++ shown more) own
              ∙ ap shown (sym all)
        ]
      ]

  -- If Explain succeeds then Search does, and both rank the heatmap's peaks over exactly the
  -- contributions that the breakdown shows, in its order. The two runs may range over the map of the
  -- documents in different orders, and the results are equal where these are equal.
  pub explain-search :
      (order order' : Ranging F) (d : Settings F) (q : Query) (limit : ℕ) (passes : Passes F P)
      (ex : List (PassExplain F)) (peaks : List (Hit F))
      → explain F P order d q limit passes ≡ some (ex, peaks)
      → (peaks ≡ fuse F order d (shown ex) limit)
        × (search F P order' d q limit passes ≡ some (fuse F order' d (shown ex) limit))
  unfolding explain search
  explain-search order order' d q limit passes ex peaks e =
      elim (Option-cases (gather F P d q passes)) [
        | inl failed ↦ absurd (cc (rw (failed, explain) at e))
        | inr ((deposits, ex'), ok) ↦
            let made = rw (ok, explain) at e in
            let same : ex' ≡ ex = cc made in
            let found : fuse F order d deposits limit ≡ peaks = cc made in
            let all = gather-shown d q passes deposits ex' ok ∙ ap shown same in
            (
              sym found ∙ ap (λ ds. fuse F order d ds limit) all,
              rw (ok, search) (ap (λ ds. some (fuse F order' d ds limit)) all),
            )
      ]
