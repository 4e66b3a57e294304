-- ===== src/Command/Samples/Short.antt =====
-- What a pseudo-query of the calibration is.
use attndb.Prelude.{
  ℕ, ◌≤◌, ◌<◌, ◌≡◌, refl, sym, ap, take_all, take-All, ◌&&◌, List, [], ◌∷◌, length, take,
  if◌then◌else◌, ltb, arith, All, All-append, All-map, Any, Bool-cases, inl, inr, length-take, min,
}
use attndb.Prelude.Text.{Bytes, codes, fields, join}
use attndb.Core.Types.{Document, Chunk}
use attndb.Chunk.Chunkers.{by_paragraph}
use attndb.Command.Samples.{opening, chunk_samples, doc_samples, sample_queries}

-- The query is the first words, at least 4 and at most 12, of a paragraph.
pub record IsOpening (q : Bytes) (ch : Chunk) : Type 0 where
  pub words : ℕ
  pub enough : 4 ≤ words
  pub few : words ≤ 12
  pub joined : q ≡ join (codes " ") (take words (fields ch.text))

abbrev pub OfDocument : Bytes → Document → Type 0
OfDocument q d = Any (IsOpening q) (by_paragraph d)

opening-take : (words : List Bytes) → opening words ≡ take (min 12 (length words)) words
unfolding opening
opening-take words = elim (Bool-cases (ltb 12 (length words))) [
  | inl more ↦
      let n : min 12 (length words) ≡ 12 = ground arith in rw (more, if◌then◌else◌) (rw n refl)
  | inr few ↦
      let n : min 12 (length words) ≡ length words = ground arith in
      rw (few, if◌then◌else◌) (rw n (sym (take_all words)))
]

chunk_samples-IsOpening :
    (chunks : List Chunk) → All (λ q. Any (IsOpening q) chunks) (chunk_samples chunks)
unfolding chunk_samples
chunk_samples-IsOpening [] = tt
chunk_samples-IsOpening (ch ∷ chunks) =
    let further =
      All-map {P = λ q. Any (IsOpening q) chunks} {Q = λ q. Any (IsOpening q) (ch ∷ chunks)}
        (λ q h. inr h) (chunk_samples chunks) (chunk_samples-IsOpening chunks) in
    elim (Bool-cases (ltb (length (fields ch.text)) 4)) [
      | inl short ↦ rw (short, if◌then◌else◌) further
      | inr long ↦
          rw (long, if◌then◌else◌)
            (
              inl (record {
                words = min 12 (length (fields ch.text));
                enough = ground arith;
                few = omega arith;
                joined = ap (join (codes " ")) (opening-take (fields ch.text));
              }),
              further,
            )
    ]

doc_samples-OfDocument :
    (docs : List Document) → All (λ q. Any (OfDocument q) docs) (doc_samples docs)
unfolding doc_samples
doc_samples-OfDocument [] = tt
doc_samples-OfDocument (d ∷ docs) =
    All-append (λ q. Any (OfDocument q) (d ∷ docs)) (chunk_samples (by_paragraph d))
      (doc_samples docs)
      (All-map (λ q h. inl h) (chunk_samples (by_paragraph d))
        (chunk_samples-IsOpening (by_paragraph d)))
      (All-map (λ q h. inr h) (doc_samples docs) (doc_samples-OfDocument docs))

-- If the shuffle only moves the elements of a list, so that what holds of all of them holds of all
-- of the result, then each pseudo-query is the first words of a paragraph of some document, 4 to 12
-- of them, and where the number `n` is not 0 there are no more than `n`.
pub sample_queries-OfDocument :
    (shuffle : List Bytes → List Bytes)
    → ((P : Bytes → Type 0) (xs : List Bytes) → All P xs → All P (shuffle xs))
    → (docs : List Document) (n : ℕ) → 0 < n
    → All (λ q. Any (OfDocument q) docs) (sample_queries shuffle docs n)
      × (length (sample_queries shuffle docs n) ≤ n)
unfolding sample_queries
sample_queries-OfDocument shuffle moves docs n pos_n =
    let pool = shuffle (doc_samples docs) in
    let all =
      moves (λ q. Any (OfDocument q) docs) (doc_samples docs) (doc_samples-OfDocument docs) in
    elim (Bool-cases (ltb 0 n && ltb n (length pool))) [
      | inl cut ↦
          let size = length-take n pool in
          rw (cut, if◌then◌else◌)
            (take-All (λ q. Any (OfDocument q) docs) n pool all, omega (arith, size))
      | inr whole ↦ rw (whole, if◌then◌else◌) (all, ground arith)
    ]
