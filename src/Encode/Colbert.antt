-- ===== src/Encode/Colbert.antt =====
-- internal/encode/onnx/colbert.go: the input of the model and the reading of its output. The
-- tokenizer and the model's session are libraries, given by what they compute.
pub mod Vectors
use attndb.Prelude.{
  ℕ, zero, suc, ◌+◌, ◌-◌, ◌*◌, ◌≡◌, Bool, true, false, ◌&&◌, ◌||◌, Option, none, some, List, [],
  ◌∷◌, ◌++◌, map, length, take, drop, replicate, if◌then◌else◌, ltb, ◌==◌,
}
use attndb.Prelude.Text.{Bytes, codes}
use attndb.Core.Spans.{Span}
use attndb.Core.Floats.{Floats}
use attndb.Core.Vec.{TokenVecs}

abbrev pub cls_id : ℕ
cls_id = 50281

abbrev pub sep_id : ℕ
sep_id = 50282

abbrev pub q_id : ℕ
q_id = 50368

abbrev pub d_id : ℕ
d_id = 50369

abbrev pub query_len : ℕ
query_len = 48

abbrev pub doc_len : ℕ
doc_len = 300

abbrev pub dim : ℕ
dim = 128

-- !"#$%&'()*+,-./:;<=>?@[\]^_`{|}~
abbrev pub punctuation : Bytes
punctuation = 0x21 ∷ 0x22 ∷ codes "#$%&'()*+,-./:;<=>?@[" ++ 0x5c ∷ codes "]^_`{|}~"

-- A token of the tokenizer's: its identifier and its offsets in the text.
pub record Token : Type 0 where
  pub id : ℕ
  pub offset : Span

unfoldable pub max_len : Bool → ℕ
max_len is_doc = if is_doc then doc_len else query_len

unfoldable pub marker : Bool → ℕ
marker is_doc = if is_doc then d_id else q_id

-- The tokens that are kept: CLS, the marker and SEP take three places.
unfoldable pub content : Bool → List Token → List Token
unfolding max_len
content is_doc tokens =
    if ltb (max_len is_doc - 3) (length tokens) then take (max_len is_doc - 3) tokens else tokens

unfoldable pub input_ids : Bool → List Token → List ℕ
unfolding marker
input_ids is_doc tokens = cls_id ∷ marker is_doc ∷ (map (λ (t : Token). t.id) tokens ++ sep_id ∷ [])

unfoldable pub fixed_len : Bool → Bool → ℕ
unfolding max_len
fixed_len padded is_doc = if padded then max_len is_doc else 0

unfoldable pub pad : ℕ → List ℕ → List ℕ
pad fixed xs = if ltb (length xs) fixed then xs ++ replicate (fixed - length xs) 0 else xs

unfoldable pub skips : List ℕ → ℕ → Bool
skips [] id = false
skips (s ∷ skiplist) id = s == id || skips skiplist id

unfoldable pub build_skiplist : (Bytes → List Token) → Bytes → List ℕ
build_skiplist tokenizer [] = []
build_skiplist tokenizer (r ∷ chars) =
    map (λ (t : Token). t.id) (tokenizer (r ∷ [])) ++ build_skiplist tokenizer chars

module _ (F : Floats) where
  open F use {F32}

  -- data[pos*dim : (pos+1)*dim]
  unfoldable pub vector_at : List F32 → ℕ → List F32
  vector_at output at = take ((at + 1) * dim - at * dim) (drop (at * dim) output)

  -- The loop over the content, at the token `i`.
  unfoldable pub token_outputs : (ℕ → Bool) → List F32 → ℕ → List Token → TokenVecs F
  unfolding vector_at
  token_outputs dropped output i [] = record { vecs = []; offsets = [] }
  token_outputs dropped output i (t ∷ tokens) =
      let rest = token_outputs dropped output (i + 1) tokens in
      if dropped t.id
      then rest
      else record { vecs = vector_at output (i + 2) ∷ rest.vecs; offsets = t.offset ∷ rest.offsets }

  pub record Colbert : Type 0 where
    pub tokenizer : Bytes → List Token
    -- the identifiers and the mask to the output, all positions in one list; none where it fails
    pub session : List ℕ → List ℕ → Option (List F32)
    pub padded : Bool

  -- run
  unfoldable pub run_session : Colbert → List ℕ → List ℕ → ℕ → Option (List F32)
  unfolding pad
  run_session c ids mask fixed =
      c.session (pad fixed ids)
        (if ltb (length ids) fixed then mask ++ replicate (fixed - length ids) 0 else mask)

  unfoldable pub skiplist : Colbert → List ℕ
  unfolding build_skiplist
  skiplist c = build_skiplist c.tokenizer punctuation

  unfoldable pub colbert_encode : Colbert → Bytes → Bool → Option (TokenVecs F)
  unfolding content input_ids fixed_len run_session token_outputs skips skiplist
  colbert_encode c text is_doc =
      let tokens = content is_doc (c.tokenizer text) in
      let ids = input_ids is_doc tokens in
      elim (run_session c ids (replicate (length ids) 1) (fixed_len c.padded is_doc)) [
        | none ↦ none
        | some output ↦ some (token_outputs (λ id. is_doc && skips (skiplist c) id) output 0 tokens)
      ]

  -- EncodeDocs
  unfoldable pub colbert_docs : Colbert → List Bytes → Option (List (TokenVecs F))
  colbert_docs c [] = some []
  colbert_docs c (t ∷ texts) = elim (colbert_encode c t true) [
    | none ↦ none
    | some tv ↦ elim (colbert_docs c texts) [ none ↦ none | some tvs ↦ some (tv ∷ tvs) ]
  ]
