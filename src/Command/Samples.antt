-- ===== src/Command/Samples.antt =====
-- sampleQueries and buildQuery of cmd/attndb/main.go. `shuffle` is what `rand.Shuffle` with the fixed
-- seed does to a list.
pub mod Short
use attndb.Prelude.{
  ℕ, ◌&&◌, Option, none, some, List, [], ◌∷◌, ◌++◌, length, take, if◌then◌else◌, ltb, ◌==◌, ◌≡◌,
  refl,
}
use attndb.Prelude.Text.{Bytes, codes, fields, join}
use attndb.Core.Types.{Document, Chunk, Query, Value, str}
use attndb.Chunk.Chunkers.{by_paragraph}

-- words[:12] where there are more
unfoldable pub opening : List Bytes → List Bytes
opening words = if ltb 12 (length words) then take 12 words else words

-- The inner loop.
unfoldable pub chunk_samples : List Chunk → List Bytes
unfolding opening fields join
chunk_samples [] = []
chunk_samples (ch ∷ chunks) =
    let rest = chunk_samples chunks in
    if ltb (length (fields ch.text)) 4
    then rest
    else join (codes " ") (opening (fields ch.text)) ∷ rest

unfoldable pub doc_samples : List Document → List Bytes
unfolding chunk_samples by_paragraph
doc_samples [] = []
doc_samples (d ∷ docs) = chunk_samples (by_paragraph d) ++ doc_samples docs

unfoldable pub sample_queries : (List Bytes → List Bytes) → List Document → ℕ → List Bytes
unfolding doc_samples
sample_queries shuffle docs n =
    let pool = shuffle (doc_samples docs) in
    if ltb 0 n && ltb n (length pool) then take n pool else pool

abbrev pub sample_queries_n : ℕ
sample_queries_n = 150

-- strings.Cut at one byte
unfoldable pub cut : ℕ → Bytes → Option (Bytes × Bytes)
cut sep [] = none
cut sep (c ∷ s) =
    let rest : Option (Bytes × Bytes) = elim (cut sep s) [
      | none ↦ none
      | some (a, b) ↦ some (c ∷ a, b)
    ] in
    if c == sep then some ([], s) else rest

unfoldable pub build_query : Bytes → Bytes → Query
unfolding cut
build_query text filter = elim (cut b'=' filter) [
  | none ↦ record { text = text; filters = [] }
  | some (key, val) ↦ record { text = text; filters = (key, str val) ∷ [] }
]

build_query_runs :
    build_query (codes "q") (codes "path=a=b")
    ≡ record { text = codes "q"; filters = (codes "path", str (codes "a=b")) ∷ [] }
unfolding build_query
build_query_runs = refl
