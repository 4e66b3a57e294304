-- ===== src/Encode/Single.antt =====
-- internal/encode/onnx/single.go: the input of the single-vector model. The tokenizer, which adds its
-- special tokens, and the model's session are libraries, given by what they compute.
pub mod Masked
use attndb.Prelude.{
  ℕ, ◌+◌, ◌-◌, ◌≡◌, Bool, true, false, ◌&&◌, Option, none, some, List, [], ◌∷◌, ◌++◌, length, take,
  replicate, if◌then◌else◌, ltb,
}
use attndb.Prelude.Text.{Bytes}
use attndb.Core.Floats.{Floats}
use attndb.Core.Vec.{normalize}
use attndb.Serve.Assemble.{SingleEncoder}

abbrev pub single_dim : ℕ
single_dim = 768

abbrev pub core_ml_single_len : ℕ
core_ml_single_len = 512

module _ (F : Floats) where
  open F use {F32}

  -- `max_single_len` comes from the environment.
  pub record SingleVector : Type 0 where
    pub tokenizer : Bytes → List ℕ
    pub session : List ℕ → List ℕ → Option (List F32)
    pub padded : Bool
    pub max_single_len : ℕ

  unfoldable pub seq_cap : SingleVector → ℕ
  seq_cap s = if s.padded then core_ml_single_len else s.max_single_len

  unfoldable pub token_count : SingleVector → Bytes → ℕ
  unfolding seq_cap
  token_count s text =
      if ltb (seq_cap s) (length (s.tokenizer text)) then seq_cap s else length (s.tokenizer text)

  unfoldable pub alloc_len : SingleVector → ℕ → ℕ
  alloc_len s n = if s.padded && ltb n core_ml_single_len then core_ml_single_len else n

  -- The identifiers and the mask, with zeros behind them.
  unfoldable pub single_input : SingleVector → Bytes → List ℕ × List ℕ
  unfolding token_count alloc_len
  single_input s text =
      let n = token_count s text in
      (
        take n (s.tokenizer text) ++ replicate (alloc_len s n - n) 0,
        replicate n 1 ++ replicate (alloc_len s n - n) 0,
      )

  unfoldable pub single_encode : SingleVector → Bytes → Option (List F32)
  unfolding single_input normalize
  single_encode s text =
      let (ids, mask) = single_input s text in
      elim (s.session ids mask) [
        | none ↦ none
        | some output ↦ some (normalize F (take single_dim output))
      ]

  unfoldable pub single_docs : SingleVector → List Bytes → Option (List (List F32))
  single_docs s [] = some []
  single_docs s (t ∷ texts) = elim (single_encode s t) [
    | none ↦ none
    | some v ↦ elim (single_docs s texts) [ none ↦ none | some vs ↦ some (v ∷ vs) ]
  ]

  unfoldable pub single_encoder : SingleVector → SingleEncoder F
  unfolding single_docs
  single_encoder s = record { encode_docs = single_docs s; encode_query = single_encode s }
