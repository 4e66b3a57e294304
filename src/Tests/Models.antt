-- ===== src/Tests/Models.antt =====
-- The token encoder over a tokenizer with one token for each byte, and a model whose output is the
-- same everywhere.
use attndb.Prelude.{
  ℕ, zero, suc, ◌+◌, ◌≡◌, refl, ap, true, some, List, [], ◌∷◌, length, replicate, length-replicate,
  All,
}
use attndb.Prelude.Int.{ℤ, pos}
use attndb.Prelude.Text.{Bytes, codes}
use attndb.Core.Vec.{TokenVecs}
use attndb.Encode.Colbert.{dim, Token, Colbert, colbert_encode}
use attndb.Encode.Colbert.Vectors.{flat, IsModel, IsReading, colbert_encode-Rows}
use attndb.Tests.Heats.{integers}

bytes_from : ℕ → Bytes → List Token
bytes_from i [] = []
bytes_from i (c ∷ s) =
    record { id = c; offset = record { start = i; end = i + 1 } } ∷ bytes_from (i + 1) s

-- One row for each position.
same_rows : ℕ → List (List ℤ)
same_rows zero = []
same_rows (suc n) = replicate dim (pos 1) ∷ same_rows n

model_rows : List ℕ → List ℕ → List (List ℤ)
model_rows ids mask = same_rows (length ids)

abbrev model : Colbert integers
model = record {
  tokenizer = λ text. bytes_from 0 text;
  session = λ ids mask. some (flat (model_rows ids mask));
  padded = true;
}

abbrev row : List ℤ
row = replicate 128 (pos 1)

-- The punctuation is dropped.
abbrev encoded : TokenVecs integers
encoded = record {
  vecs = row ∷ row ∷ [];
  offsets = record { start = 0; end = 1 } ∷ record { start = 2; end = 3 } ∷ [];
}

encoded_run : colbert_encode integers model (codes "a,b") true ≡ some encoded
unfolding colbert_encode bytes_from same_rows model_rows
encoded_run = refl

same_rows-IsModel : (n : ℕ) → All (λ r. length r ≡ dim) (same_rows n) × (length (same_rows n) ≡ n)
unfolding same_rows
same_rows-IsModel zero = (tt, refl)
same_rows-IsModel (suc n) =
    ((length-replicate dim (pos 1), (same_rows-IsModel n).0), ap suc (same_rows-IsModel n).1)

model-IsModel : IsModel integers model model_rows
unfolding model_rows
model-IsModel = record {
  output = λ ids mask output e. cc;
  count = λ ids mask. (same_rows-IsModel (length ids)).1;
  sizes = λ ids mask. (same_rows-IsModel (length ids)).0;
}

colbert_encode-Rows_example : IsReading integers model model_rows (codes "a,b") true encoded
colbert_encode-Rows_example =
    colbert_encode-Rows integers model model_rows (codes "a,b") true encoded model-IsModel
      encoded_run
