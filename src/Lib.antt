-- ===== src/Lib.antt =====
-- attndb keeps a semantic index of a folder of markdown notes: documents are cut into chunks, each
-- pass encodes the chunks and scores them for a query, the scores are laid on a heatmap over each
-- document, and the peaks of the heatmap are the answer. A reconciler keeps the index in step with
-- the folder. The parts, and the files that model them:
--
--   Core       internal/core: spans, documents, chunks, token vectors and their similarity.
--   Chunk      internal/chunk/chunk.go: Token for tokenizeOffset, Window for window, Paragraph for
--              splitBlankLines, Section for atxHeading and parseSections, and Chunkers for the four
--              chunkers, which call the others.
--   Heat       internal/heat/heat.go: Normal for the normalizers, Density for densitySegments,
--              Peaks for extractPeaks, Accumulate for Accumulate.
--   Store      internal/store: Stamp and Pool for the data of pool.go, Memory for memory.go,
--              Qdrant for qdrant.go over a client that is given.
--   Encode     internal/encode: Stub for the hash-based encoders, Colbert and Single for what
--              onnx/colbert.go and onnx/single.go give to their models and read from them.
--   Corpus     internal/corpus/corpus.go: the walk of LoadDir and the test of file names.
--   Reconcile  internal/reconcile/reconcile.go: Index for the interfaces Store and Ingester with
--              the laws assumed of them, Passes for ReconcileAll, Reconcile and what they call.
--   Pass       internal/pass/pass.go: Coords for the shared helpers, Lane for the two kinds of pass,
--              over a pool and an encoder that are given.
--   Db         internal/db/db.go: Compose for the database as a list of passes with the states of
--              their pools, Calibrate for the calibration.
--   Command    cmd/attndb/main.go: Pools for newPools, Samples for sampleQueries and buildQuery,
--              Calibration for the calibration file and the body of a recalibration, Results for
--              gate and snippet.
--   Serve      how the command puts the parts together: Assemble for assembleDB over pools in memory
--              and the database as the reconciler sees it (ingestDB, newIngester), Watch for
--              watchLoop and recalibrate of cmd/attndb/serve.go as steps on their state.
--   Vault      cmd/attndb/serve.go: Path for vaultName, Sessions for readState, Lines for the windows
--              of readDoc, Find for the string functions of editDoc, and Docs for the tools, which
--              work on the files of Disk; Glob for vaultGlob, Listing for listDocs, Search for the
--              tool search_vault and spanPreview.
--   Prelude    numbers, lists, maps, texts and sorting; Tests the theorems at concrete inputs.
--
-- A string of Go is the list of its bytes, and an offset is a native number. Go maps are
-- association lists, whose order stands for the order of iteration, which Go leaves open; where
-- two runs may range over the same map, as in Heat.Accumulate, the order of each run is a
-- parameter. An int is wrapped where a sum of ints may overflow (Vault.Lines). An error is none
-- for nil, or its text. Floating-point numbers and their operations are a parameter
-- (Core/Floats.antt); a theorem that needs laws of them has these as hypotheses. sort.Slice is an
-- insertion sort, of which the theorems use only that it keeps the elements and puts them in
-- order. Loops over slices and bytes are structural recursion. Where a loop moves an index in its
-- body it has fuel: window_from and grow_right get the number of tokens or segments, which they
-- cannot outrun, as each round moves on; split_from gets the length of the text. A pass of the
-- reconciler holds the lock from start to end, so it is one function of the index and the cache.
--
-- A recalibration runs beside the loop that starts it: in Serve.Watch it is a start, which takes the
-- semaphore, and an end, which may come at any later step.
--
-- Not modelled: reading a tree from disk, hashing, logging, flags and printing, the file watchers
-- and the HTTP server. The Qdrant service, the tokenizers and the ONNX sessions are parameters. The
-- daemon asks for the Qdrant pool; Serve.Assemble has in its place the pool in memory, which
-- implements the same interface.
pub mod Prelude
pub mod Core
pub mod Chunk
pub mod Heat
pub mod Store
pub mod Corpus
pub mod Reconcile
pub mod Command
pub mod Serve
pub mod Encode
pub mod Pass
pub mod Db
pub mod Vault
pub mod Tests
