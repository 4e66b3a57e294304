-- ===== src/Encode/Stub/Tokens.antt =====
-- The stub encoders against what the passes rely on.
use attndb.Prelude.{
  ℕ, ◌+◌, ◌≡◌, refl, ap, ◌∙◌, Option, none, some, List, [], ◌∷◌, map, length, if◌then◌else◌, arith,
  Bool-cases, inl, inr, length-map,
}
use attndb.Prelude.Text.{Bytes, slice}
use attndb.Core.Spans.{Span}
use attndb.Core.Floats.{Floats}
use attndb.Core.Vec.{TokenVecs}
use attndb.Chunk.Token.{is_space, tokens_from, tokenize_offset, tokenize}
use attndb.Encode.Stub.{
  token_vector, emit, token_vecs_from, token_vecs, bag_vector, stub_single, stub_multi,
}
use attndb.Serve.Assemble.{Tuning}
use attndb.Serve.Assemble.Documents.{OnePerText}
use attndb.Serve.Assemble.Refines.{Total}

module _ (F : Floats) (to_lower : Bytes → Bytes) where
  -- The offsets are the chunkers' tokens, and each vector is that of the token at its offset.
  abbrev pub OfTokens : Bytes → ℕ → TokenVecs F → List Span → Type 0
  OfTokens text dim tv spans =
      (tv.offsets ≡ spans)
      × (tv.vecs ≡ map (λ s. token_vector F to_lower (slice text s.start s.end) dim) spans)

  ended-OfTokens :
      (dim : ℕ) (text : Bytes) (i start : ℕ) (rest : TokenVecs F) (spans : List Span)
      → OfTokens text dim rest spans
      → OfTokens text dim
          (emit F to_lower dim text start i rest)
          (record { start = 0 + start; end = 0 + i } ∷ spans)
  unfolding emit
  ended-OfTokens dim text i start rest spans (offsets, vecs) =
      let a : 0 + start ≡ start = omega arith in
      let b : 0 + i ≡ i = omega arith in
      rw (a, b)
        (
          ap (λ t. record { start = start; end = i } ∷ t) offsets,
          ap (λ t. token_vector F to_lower (slice text start i) dim ∷ t) vecs,
        )

  token_vecs_from-OfTokens :
      (dim : ℕ) (text s : Bytes) (i : ℕ) (start : Option ℕ)
      → OfTokens text dim (token_vecs_from F to_lower dim text s i start) (tokens_from 0 s i start)
  unfolding token_vecs_from tokens_from
  token_vecs_from-OfTokens dim text [] i none = (refl, refl)
  token_vecs_from-OfTokens dim text [] i (some start) =
      ended-OfTokens dim text i start (record { vecs = []; offsets = [] }) [] (refl, refl)
  token_vecs_from-OfTokens dim text (r ∷ s) i none =
      token_vecs_from-OfTokens dim text s (i + 1) (if is_space r then none else some i)
  token_vecs_from-OfTokens dim text (r ∷ s) i (some start) =
      let rest = token_vecs_from-OfTokens dim text s (i + 1) none in
      let inside = token_vecs_from-OfTokens dim text s (i + 1) (some start) in
      elim (Bool-cases (is_space r)) [
        | inl space ↦
            rw (space, if◌then◌else◌)
              (ended-OfTokens dim text i start (token_vecs_from F to_lower dim text s (i + 1) none)
                (tokens_from 0 s (i + 1) none) rest)
        | inr letter ↦ rw (letter, if◌then◌else◌) inside
      ]

  -- The stub encoder gives one vector and one offset for each token that the chunkers find in the
  -- text, in order: the offset is the token's span, and the vector is the one of the text there.
  pub token_vecs-OfTokens :
      (text : Bytes) (dim : ℕ) → OfTokens text dim (token_vecs F to_lower text dim) (tokenize text)
  unfolding token_vecs tokenize tokenize_offset
  token_vecs-OfTokens text dim = token_vecs_from-OfTokens dim text text 0 none

  pub stub_single-OnePerText : (dim : ℕ) → OnePerText F (stub_single F to_lower dim)
  unfolding stub_single
  stub_single-OnePerText dim texts vecs e =
      let same : vecs ≡ map (λ t. bag_vector F to_lower t dim) texts = cc in
      ap length same ∙ length-map texts (λ t. bag_vector F to_lower t dim)

  pub stub-Total :
      (t : Tuning F) (dim : ℕ) → Total F (stub_multi F to_lower dim) t (stub_single F to_lower dim)
  unfolding stub_single stub_multi
  stub-Total t dim = (λ texts. (_, refl), λ texts. (_, refl))
