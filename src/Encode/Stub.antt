-- ===== src/Encode/Stub.antt =====
-- internal/encode/stub.go: encoders that hash tokens. `to_lower` stands for strings.ToLower, whose
-- tables of letters are not part of the model. A `uint64` is a number below 2 ^ 64.
pub mod Tokens
use Prim.Native.Nat.{bit_xor, bit_or}
use attndb.Prelude.{
  ℕ, zero, suc, ◌+◌, ◌*◌, ◌/◌, ◌%◌, ◌^◌, ◌≡◌, refl, Option, none, some, List, [], ◌∷◌, map, length,
  replicate, if◌then◌else◌,
}
use attndb.Prelude.Fnv.{fnv64a}
use attndb.Prelude.Text.{Bytes, codes, slice, fields}
use attndb.Core.Spans.{Span}
use attndb.Core.Floats.{Floats}
use attndb.Core.Vec.{TokenVecs, normalize}
use attndb.Chunk.Token.{is_space}
use attndb.Serve.Assemble.{MultiEncoder, SingleEncoder}

unfoldable pub xorshift : ℕ → ℕ
xorshift state =
    let a = bit_xor state (state * 2 ^ 13 % 2 ^ 64) in
    let b = bit_xor a (a / 2 ^ 7) in bit_xor b (b * 2 ^ 17 % 2 ^ 64)

module _ (F : Floats) (to_lower : Bytes → Bytes) where
  open F use {F32, zero32, minus_one32, add32, div32, of_ℕ32}

  -- A state shifted by 11 is below 2 ^ 53, so that its conversion to int64 is the number itself;
  -- x - 1 is x + -1.
  unfoldable pub components : ℕ → ℕ → List F32
  unfolding xorshift
  components zero state = []
  components (suc dim) state =
      add32 (div32 (of_ℕ32 (xorshift state / 2 ^ 11)) (of_ℕ32 (2 ^ 52))) minus_one32
      ∷ components dim (xorshift state)

  unfoldable pub token_vector : Bytes → ℕ → List F32
  unfolding fnv64a components normalize
  token_vector tok dim = normalize F (components dim (bit_or (fnv64a (to_lower tok)) 1))

  add_vectors : List F32 → List F32 → List F32
  add_vectors (x ∷ v) (y ∷ w) = add32 x y ∷ add_vectors v w
  add_vectors v _ = v

  unfoldable pub sum_tokens : ℕ → List Bytes → List F32 → List F32
  unfolding token_vector add_vectors
  sum_tokens dim [] v = v
  sum_tokens dim (tok ∷ toks) v = sum_tokens dim toks (add_vectors v (token_vector tok dim))

  unfoldable pub bag_vector : Bytes → ℕ → List F32
  unfolding sum_tokens normalize fields
  bag_vector text dim = normalize F (sum_tokens dim (fields text) (replicate dim zero32))

  -- `emit`, in front of the tokens behind.
  unfoldable pub emit : ℕ → Bytes → ℕ → ℕ → TokenVecs F → TokenVecs F
  unfolding token_vector
  emit dim text start end rest = record {
    vecs = token_vector (slice text start end) dim ∷ rest.vecs;
    offsets = record { start = start; end = end } ∷ rest.offsets;
  }

  -- The loop, at the position `i` of `text`; `start` is none for -1.
  unfoldable pub token_vecs_from : ℕ → Bytes → Bytes → ℕ → Option ℕ → TokenVecs F
  unfolding emit is_space
  token_vecs_from dim text [] i none = record { vecs = []; offsets = [] }
  token_vecs_from dim text [] i (some start) =
      emit dim text start i (record { vecs = []; offsets = [] })
  token_vecs_from dim text (r ∷ s) i none =
      token_vecs_from dim text s (i + 1) (if is_space r then none else some i)
  token_vecs_from dim text (r ∷ s) i (some start) =
      let ended = emit dim text start i (token_vecs_from dim text s (i + 1) none) in
      let inside = token_vecs_from dim text s (i + 1) (some start) in
      if is_space r then ended else inside

  unfoldable pub token_vecs : Bytes → ℕ → TokenVecs F
  unfolding token_vecs_from
  token_vecs text dim = token_vecs_from dim text text 0 none

  unfoldable pub stub_single : ℕ → SingleEncoder F
  unfolding bag_vector
  stub_single dim = record {
    encode_docs = λ texts. some (map (λ t. bag_vector t dim) texts);
    encode_query = λ q. some (bag_vector q dim);
  }

  unfoldable pub stub_multi : ℕ → MultiEncoder F
  unfolding token_vecs
  stub_multi dim = record {
    encode_docs = λ texts. some (map (λ t. token_vecs t dim) texts);
    encode_query = λ q. some (token_vecs q dim);
  }
