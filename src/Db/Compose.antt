-- ===== src/Db/Compose.antt =====
-- Ingest, Delete, Stamps, gather, fuse, Search and Explain of internal/db/db.go. The state is the
-- passes, each with the state of its pool. The lock on the normalizers only keeps a swap whole.
pub mod Explained
use attndb.Prelude.{
  ℕ, ◌≡◌, Bool, ◌&&◌, Option, none, some, List, [], ◌∷◌, ◌++◌, map, length, take, if◌then◌else◌,
  ltb,
}
use attndb.Prelude.Text.{Bytes, codes, bytes_eq}
use attndb.Prelude.Dict.{Dict, lookup, insert}
use attndb.Prelude.Sort.{sort_by}
use attndb.Core.Spans.{Span}
use attndb.Core.Types.{Document, Query}
use attndb.Core.Floats.{Floats}
use attndb.Store.Stamp.{DocStamp}
use attndb.Reconcile.Index.{Error}
use attndb.Heat.Normal.{Affine, affine}
use attndb.Heat.Density.{Deposit}
use attndb.Heat.Accumulate.{Peak, Ranging, accumulate}
use attndb.Pass.Lane.{Pool, Lane, Candidate, ingest_docs, pass_deposits}

module _ (F : Floats) where
  open F use {F32, F64, mul64, lt32, widen, narrow}

  abbrev pub Normalizer : Type 0
  Normalizer = List F64 → List F64

  pub record PassCalib : Type 0 where
    pub lo : F64
    pub hi : F64

  -- The settings and the calibrated normalizers.
  pub record Settings : Type 0 where
    pub norm : Normalizer
    pub pass_norm : Dict Normalizer
    pub recall_k : ℕ
    pub peak_fraction : F64

  unfoldable pub calibrated : Dict PassCalib → Dict Normalizer
  unfolding insert
  calibrated [] = []
  calibrated ((name, pc) ∷ c) =
      insert name (affine F (record { lo = pc.lo; hi = pc.hi })) (calibrated c)

  unfoldable pub set_calibration : Dict PassCalib → Settings → Settings
  unfolding calibrated
  set_calibration c d = record d { pass_norm = calibrated c }

  unfoldable pub normalizer_for : Settings → Bytes → Normalizer
  unfolding lookup
  normalizer_for d pass = elim (lookup pass d.pass_norm) [ none ↦ d.norm | some n ↦ n ]

  pub record ExplainCand : Type 0 where
    pub doc_id : Bytes
    pub span : Span
    pub raw : F64
    pub norm : F64
    pub contribution : F64

  pub record PassExplain : Type 0 where
    pub pass : Bytes
    pub weight : F64
    pub cands : List ExplainCand

  -- The candidates of one pass with their normalized scores, one for each.
  unfoldable pub explain_cands : F64 → List (Candidate F) → List F64 → List ExplainCand
  explain_cands w (c ∷ cands) (n ∷ norm) =
      record {
        doc_id = c.doc_id;
        span = c.span;
        raw = widen c.score;
        norm = n;
        contribution = mul64 w n;
      }
      ∷ explain_cands w cands norm
  explain_cands w _ _ = []

  -- The deposits of one pass: the loop over its candidates appends one to `deposits` and one to
  -- `pe.Cands`.
  unfoldable pub deposits_from : F64 → List (Candidate F) → List F64 → List (Deposit F)
  deposits_from w (c ∷ cands) (n ∷ norm) =
      record { doc_id = c.doc_id; span = c.span; weight = mul64 w n } ∷ deposits_from w cands norm
  deposits_from w _ _ = []

  -- norm, for the raw scores of the candidates
  unfoldable pub normalized : Settings → Bytes → List (Candidate F) → List F64
  unfolding normalizer_for
  normalized d name cands = normalizer_for d name (map (λ (c : Candidate F). widen c.score) cands)

  unfoldable pub explain_pass : Settings → Lane F → List (Candidate F) → PassExplain
  explain_pass d p cands = record {
    pass = p.name;
    weight = p.weight;
    cands = explain_cands p.weight cands (normalized d p.name cands);
  }

  pub record Hit : Type 0 where
    pub doc_id : Bytes
    pub span : Span
    pub score : F32

  unfoldable pub results_of : List (Peak F) → List Hit
  results_of [] = []
  results_of (pk ∷ peaks) =
      record { doc_id = pk.doc_id; span = pk.span; score = narrow pk.score } ∷ results_of peaks

  -- limit > 0 && len(results) > limit, for a natural limit
  unfoldable pub limited : ℕ → List Hit → List Hit
  limited limit results =
      if ltb 0 limit && ltb limit (length results) then take limit results else results

  -- `order` is the order in which this run ranges over the map of the documents.
  unfoldable pub fuse : Ranging F → Settings → List (Deposit F) → ℕ → List Hit
  fuse order d deposits limit = limited limit (
      sort_by (λ a b. lt32 b.score a.score)
        (results_of (accumulate F order deposits d.peak_fraction)))

  module _ (P : Pool F) where
    abbrev pub Passes : Type 0
    Passes = List (Lane F × P.State)

    unfoldable pub ingest : List Document → Passes → Error × Passes
    ingest docs [] = (none, [])
    ingest docs ((p, s) ∷ passes) =
        let (e, s') = ingest_docs F P p docs s in
        elim e [
          | some m ↦ (some m, (p, s') ∷ passes)
          | none ↦ (let (e', rest) = ingest docs passes in (e', (p, s') ∷ rest))
        ]

    -- The inner loop of Delete, over the documents.
    unfoldable pub delete_from : List Bytes → P.State → Error × P.State
    delete_from [] s = (none, s)
    delete_from (id ∷ ids) s =
        let (e, s') = P.delete id s in elim e [ some m ↦ (some m, s') | none ↦ delete_from ids s' ]

    unfoldable pub delete_docs : List Bytes → Passes → Error × Passes
    delete_docs ids [] = (none, [])
    delete_docs ids ((p, s) ∷ passes) =
        let (e, s') = delete_from ids s in
        elim e [
          | some m ↦ (some m, (p, s') ∷ passes)
          | none ↦ (let (e', rest) = delete_docs ids passes in (e', (p, s') ∷ rest))
        ]

    doc_pass : P.State → Passes → P.State
    unfolding bytes_eq
    doc_pass first [] = first
    doc_pass first ((p, s) ∷ passes) =
        let further = doc_pass first passes in if bytes_eq p.name (codes "doc") then s else further

    -- A database has one pass at least: Go panics where there is none.
    unfoldable pub db_stamps : Passes → Option (Dict DocStamp)
    unfolding doc_pass
    db_stamps [] = none
    db_stamps ((p, s) ∷ passes) = P.stamps (doc_pass s ((p, s) ∷ passes))

    -- The deposits and the breakdown; none where a pass fails.
    unfoldable pub gather : Settings → Query → Passes → Option (List (Deposit F) × List PassExplain)
    gather d q [] = some ([], [])
    gather d q ((p, s) ∷ passes) =
        let rest = gather d q passes in
        elim (pass_deposits F P p q d.recall_k s) [
          | none ↦ none
          | some cands ↦ elim rest [
            | none ↦ none
            | some (deposits, ex) ↦ some (
              deposits_from p.weight cands (normalized d p.name cands) ++ deposits,
              explain_pass d p cands ∷ ex,
            )
          ]
        ]

    unfoldable pub search : Ranging F → Settings → Query → ℕ → Passes → Option (List Hit)
    search order d q limit passes = elim (gather d q passes) [
      | none ↦ none
      | some (deposits, ex) ↦ some (fuse order d deposits limit)
    ]

    unfoldable pub explain :
        Ranging F → Settings → Query → ℕ → Passes → Option (List PassExplain × List Hit)
    explain order d q limit passes = elim (gather d q passes) [
      | none ↦ none
      | some (deposits, ex) ↦ some (ex, fuse order d deposits limit)
    ]
