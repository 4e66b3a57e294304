-- ===== src/Encode/Single/Masked.antt =====
-- The input of the single-vector model, and its encoder as the passes rely on it.
use attndb.Prelude.{
  ℕ, ◌-◌, ◌≤◌, ◌≡◌, refl, ap, suc, true, false, [], ◌∷◌, length, take, min, replicate,
  if◌then◌else◌, arith, Option-cases, inl, inr, length-append, length-take, length-replicate,
}
use attndb.Prelude.Text.{Bytes}
use attndb.Core.Floats.{Floats}
use attndb.Serve.Assemble.Documents.{OnePerText}
use attndb.Encode.Single.{
  core_ml_single_len, SingleVector, seq_cap, token_count, alloc_len, single_input, single_encode,
  single_docs, single_encoder,
}

module _ (F : Floats) where
  token_count-le :
      (s : SingleVector F) (text : Bytes)
      → (token_count F s text ≤ length (s.tokenizer text)) × (token_count F s text ≤ seq_cap F s)
  unfolding token_count
  token_count-le s text = (ground arith, ground arith)

  padded_size :
      (s : SingleVector F) (text : Bytes)
      → s.padded ≡ true
      → alloc_len F s (token_count F s text) ≡ core_ml_single_len
  unfolding alloc_len
  padded_size s text padded =
      let cap : seq_cap F s ≡ core_ml_single_len =
        unfold seq_cap in rw (padded, if◌then◌else◌) refl in
      let le = (token_count-le s text).1 in ground (arith, cap, le)

  plain_size :
      (s : SingleVector F) (text : Bytes)
      → s.padded ≡ false
      → alloc_len F s (token_count F s text) ≡ token_count F s text
  unfolding alloc_len
  plain_size s text plain = ground arith

  alloc_len-le : (s : SingleVector F) (n : ℕ) → n ≤ alloc_len F s n
  unfolding alloc_len
  alloc_len-le s n = ground arith

  -- The identifiers and the mask have one length: the fixed one where inputs are padded, otherwise
  -- the number of the text's tokens, cut at the limit.
  pub single_input-length :
      (s : SingleVector F) (text : Bytes)
      → (length (single_input F s text).0 ≡ length (single_input F s text).1)
        × (s.padded ≡ true → length (single_input F s text).0 ≡ core_ml_single_len)
        × (s.padded ≡ false
            → length (single_input F s text).0 ≡ min (length (s.tokenizer text)) s.max_single_len)
  unfolding single_input
  single_input-length s text =
      let n = token_count F s text in
      let zeros = replicate (alloc_len F s n - n) 0 in
      let a = length-append (take n (s.tokenizer text)) zeros in
      let b = length-append {A = ℕ} (replicate n 1) zeros in
      let c = length-take n (s.tokenizer text) in
      let d = length-replicate {A = ℕ} n 1 in
      let z = length-replicate {A = ℕ} (alloc_len F s n - n) 0 in
      let le = (token_count-le s text).0 in
      let more = alloc_len-le s n in
      (
        omega (arith, a, b, c, d, le),
        λ padded. let size = padded_size s text padded in omega (arith, a, c, z, le, more, size),
        λ plain.
            let size = plain_size s text plain in
            let count = plain_count s text plain in omega (arith, a, c, z, le, more, size, count),
      )
    where
      plain_count :
          (s : SingleVector F) (text : Bytes)
          → s.padded ≡ false
          → token_count F s text ≡ min (length (s.tokenizer text)) s.max_single_len
      plain_count s text plain =
          let cap : seq_cap F s ≡ s.max_single_len =
            unfold seq_cap in rw (plain, if◌then◌else◌) refl in
          unfold token_count in ground (arith, cap)

  -- One vector for each text, where encoding succeeds.
  pub single_encoder-OnePerText : (s : SingleVector F) → OnePerText F (single_encoder F s)
  unfolding single_encoder single_docs
  single_encoder-OnePerText s [] vecs e = let same : vecs ≡ [] = cc in rw same refl
  single_encoder-OnePerText s (t ∷ texts) vecs e = elim (Option-cases (single_encode F s t)) [
    | inl failed ↦ absurd (cc (rw (failed, single_docs) at (e)))
    | inr (v, one) ↦ elim (Option-cases (single_docs F s texts)) [
      | inl failed ↦ absurd (cc (rw (failed, single_docs) at (rw (one, single_docs) at (e))))
      | inr (vs, rest) ↦
          let f = rw (rest, single_docs) at (rw (one, single_docs) at (e)) in
          let same : vecs ≡ v ∷ vs = cc in
          let count = single_encoder-OnePerText s texts vs rest in rw same (ap suc count)
    ]
  ]
