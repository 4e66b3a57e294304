-- ===== src/Encode/Colbert/Vectors.antt =====
-- The vectors that are read from the model's output.
use attndb.Prelude.{
  ℕ, zero, suc, ◌+◌, ◌-◌, ◌*◌, ◌≤◌, ◌≡◌, refl, sym, ap, ◌∙◌, Bool, true, false, ◌&&◌, some, List,
  [], ◌∷◌, ◌++◌, map, take, length, drop, replicate, if◌then◌else◌, ltb, arith, Bool-cases,
  Option-cases, inl, inr, All, All-append, length-map, length-append, append-nil, append_assoc,
}
use attndb.Prelude.Text.{Bytes}
use attndb.Core.Spans.{Span}
use attndb.Core.Floats.{Floats}
use attndb.Core.Vec.{TokenVecs}
use attndb.Encode.Colbert.{
  cls_id, sep_id, q_id, d_id, marker, dim, Token, max_len, content, input_ids, fixed_len, pad,
  vector_at, token_outputs, Colbert, run_session, skips, skiplist, colbert_encode,
}

-- Of what belongs to the tokens one by one, that of the tokens that are not dropped.
unfoldable pub kept {ℓ} : {A : Type ℓ} → (ℕ → Bool) → List Token → List A → List A
kept dropped (t ∷ tokens) (x ∷ xs) =
    let rest = kept dropped tokens xs in if dropped t.id then rest else x ∷ rest
kept dropped _ _ = []

abbrev pub offsets_of : List Token → List Span
offsets_of tokens = map (λ (t : Token). t.offset) tokens

abbrev pub ids_of : List Token → List ℕ
ids_of tokens = map (λ (t : Token). t.id) tokens

kept-length :
    {A : Type 0} (dropped : ℕ → Bool) (tokens : List Token) (xs : List A)
    → length (kept dropped tokens xs) ≤ length tokens
unfolding kept
kept-length dropped [] xs = omega arith
kept-length dropped (t ∷ tokens) [] = omega arith
kept-length dropped (t ∷ tokens) (x ∷ xs) = ground (arith, kept-length dropped tokens xs)

-- As many tokens as have a place beside CLS, the marker and SEP.
abbrev pub first : Bool → List Token → List Token
first is_doc tokens = take (if is_doc then 297 else 45) tokens

-- The identifiers that the model is given for these tokens.
abbrev pub input : Bool → List Token → ℕ → List ℕ
input is_doc tokens padding =
    cls_id
    ∷ (if is_doc then d_id else q_id)
    ∷ ((ids_of tokens ++ sep_id ∷ []) ++ replicate padding 0)

few :
    (n : ℕ) (tokens : List Token)
    → (if ltb n (length tokens) then take n tokens else tokens) ≡ take n tokens
few n tokens = elim (Bool-cases (ltb n (length tokens))) [
  | inl more ↦ rw more refl
  | inr all ↦ rw all (sym (take_whole n tokens (ground arith)))
]
  where
    take_whole : (n : ℕ) (tokens : List Token) → length tokens ≤ n → take n tokens ≡ tokens
    take_whole zero [] h = refl
    take_whole zero (t ∷ tokens) h = absurd (omega arith)
    take_whole (suc n) [] h = refl
    take_whole (suc n) (t ∷ tokens) h = ap (λ ts. t ∷ ts) (take_whole n tokens (omega arith))

content_take :
    (is_doc : Bool) (tokens : List Token)
    → content is_doc tokens ≡ take (if is_doc then 297 else 45) tokens
unfolding content max_len
content_take true tokens = few 297 tokens
content_take false tokens = few 45 tokens

input_ids-length :
    (is_doc : Bool) (tokens : List Token) → length (input_ids is_doc tokens) ≡ length tokens + 3
unfolding input_ids
input_ids-length is_doc tokens =
    let ids = map (λ (t : Token). t.id) tokens in
    let n = length-append ids (50282 ∷ []) in
    let m = length-map tokens (λ (t : Token). t.id) in omega (arith, n, m)

-- The numbers of rows one behind the other.
abbrev pub flat {ℓ} : {A : Type ℓ} → List (List A) → List A
flat [] = []
flat (r ∷ rows) = r ++ flat rows

take_row : {A : Type 0} (n : ℕ) (r xs : List A) → length r ≡ n → take n (r ++ xs) ≡ r
take_row zero [] xs e = refl
take_row zero (x ∷ r) xs e = absurd (omega arith)
take_row (suc n) [] xs e = absurd (omega arith)
take_row (suc n) (x ∷ r) xs e = ap (λ t. x ∷ t) (take_row n r xs (omega arith))

drop_row :
    {A : Type 0} (n k : ℕ) (r xs : List A) → length r ≡ n → drop (n + k) (r ++ xs) ≡ drop k xs
drop_row zero k [] xs e = let same : 0 + k ≡ k = omega arith in rw same refl
drop_row zero k (x ∷ r) xs e = absurd (omega arith)
drop_row (suc n) k [] xs e = absurd (omega arith)
drop_row (suc n) k (x ∷ r) xs e =
    let next : suc n + k ≡ suc (n + k) = omega arith in rw next (drop_row n k r xs (omega arith))

mul_next : (i d : ℕ) → suc i * d ≡ d + i * d
mul_next i d = grind arith

-- The row at a position.
row_at :
    {A : Type 0} (d i : ℕ) (row : List A) (before after : List (List A))
    → All (λ r. length r ≡ d) before
    → length row ≡ d
    → length before ≡ i
    → take d (drop (i * d) (flat (before ++ row ∷ after))) ≡ row
row_at d zero row [] after sizes size e =
    let start : 0 * d ≡ 0 = omega arith in rw start (take_row d row (flat after) size)
row_at d zero row (r ∷ before) after sizes size e = absurd (omega arith)
row_at d (suc i) row [] after sizes size e = absurd (omega arith)
row_at d (suc i) row (r ∷ before) after (s, sizes) size e =
    let next : suc i * d ≡ d + i * d = mul_next i d in
    rw (next, drop_row d (i * d) r (flat (before ++ row ∷ after)) s)
      (row_at d i row before after sizes size (omega arith))

module _ (F : Floats) where
  open F use {F32}

  -- What the model computes: a row of `dim` numbers for each position of its input. Its output is
  -- the rows, one behind the other.
  pub record IsModel (c : Colbert F) (rows : List ℕ → List ℕ → List (List F32)) : Type 0 where
    pub output :
        (ids mask : List ℕ) (output : List F32)
        → c.session ids mask ≡ some output
        → output ≡ flat (rows ids mask)
    pub count : (ids mask : List ℕ) → length (rows ids mask) ≡ length ids
    pub sizes : (ids mask : List ℕ) → All (λ r. length r ≡ dim) (rows ids mask)

  vector_at_row :
      (i : ℕ) (row : List F32) (before after : List (List F32))
      → All (λ r. length r ≡ dim) before
      → length row ≡ dim
      → length before ≡ i
      → vector_at F (flat (before ++ row ∷ after)) i ≡ row
  unfolding vector_at
  vector_at_row i row before after sizes size e =
      let width : (i + 1) * dim - i * dim ≡ dim = omega arith in
      rw width (row_at dim i row before after sizes size e)

  token_outputs-kept :
      (dropped : ℕ → Bool) (i : ℕ) (tokens : List Token) (before rs : List (List F32))
      → All (λ r. length r ≡ dim) before
      → All (λ r. length r ≡ dim) rs
      → length before ≡ i + 2
      → length tokens ≤ length rs
      → ((token_outputs F dropped (flat (before ++ rs)) i tokens).vecs ≡ kept dropped tokens rs)
        × ((token_outputs F dropped (flat (before ++ rs)) i tokens).offsets
            ≡ kept dropped tokens (offsets_of tokens))
  unfolding token_outputs kept
  token_outputs-kept dropped i [] before rs sb sr e room = (refl, refl)
  token_outputs-kept dropped i (t ∷ tokens) before [] sb sr e room = absurd (omega arith)
  token_outputs-kept dropped i (t ∷ tokens) before (r ∷ rs) sb (s, sr) e room =
      let own = vector_at_row (i + 2) r before rs sb s e in
      let joined = append_assoc before (r ∷ []) rs in
      let longer : length (before ++ r ∷ []) ≡ i + 1 + 2 =
        let n = length-append before (r ∷ []) in omega (arith, n, e) in
      let (vecs, offsets) =
        token_outputs-kept dropped (i + 1) tokens (before ++ r ∷ []) rs
          (All-append (λ x. length x ≡ dim) before (r ∷ []) sb (s, tt)) sr longer (omega arith) in
      let vecs' = rw joined at vecs in
      let offsets' = rw joined at offsets in
      elim (Bool-cases (dropped t.id)) [
        | inl gone ↦ rw gone (vecs', offsets')
        | inr there ↦ rw (there, own) (ap (λ x. r ∷ x) vecs', ap (λ x. t.offset ∷ x) offsets')
      ]

  -- The padded input and its mask are given to the model.
  run_parts :
      (c : Colbert F) (ids mask : List ℕ) (fixed : ℕ)
      → (n : ℕ) × (run_session F c ids mask fixed
          ≡ c.session (ids ++ replicate n 0) (mask ++ replicate n 0))
  unfolding run_session pad
  run_parts c ids mask fixed = elim (Bool-cases (ltb (length ids) fixed)) [
    | inl short ↦ (fixed - length ids, rw (run_session, short) refl)
    | inr long ↦ (0, rw (run_session, long, append-nil ids, append-nil mask) refl)
  ]

  -- The reading of one text: the tokens that are kept of it, what the model is given, and the row of
  -- each token.
  pub record IsReading (c : Colbert F) (rows : List ℕ → List ℕ → List (List F32)) (text : Bytes)
      (is_doc : Bool) (tv : TokenVecs F) : Type 0 where
    pub padding : ℕ
    pub cls_row : List F32
    pub marker_row : List F32
    pub token_rows : List (List F32)
    pub given :
        rows
          (input is_doc (first is_doc (c.tokenizer text)) padding)
          (replicate (length (first is_doc (c.tokenizer text)) + 3) 1 ++ replicate padding 0)
        ≡ cls_row ∷ marker_row ∷ token_rows
    pub vecs :
        tv.vecs
        ≡ kept
            (λ id. is_doc && skips (skiplist F c) id)
            (first is_doc (c.tokenizer text))
            token_rows
    pub offsets :
        tv.offsets
        ≡ kept
            (λ id. is_doc && skips (skiplist F c) id)
            (first is_doc (c.tokenizer text))
            (offsets_of (first is_doc (c.tokenizer text)))

  reading :
      (c : Colbert F) (rows : List ℕ → List ℕ → List (List F32)) (text : Bytes) (is_doc : Bool)
      (tokens : List Token) (n : ℕ) (all : List (List F32))
      → tokens ≡ first is_doc (c.tokenizer text)
      → rows (input is_doc tokens n) (replicate (length tokens + 3) 1 ++ replicate n 0) ≡ all
      → All (λ r. length r ≡ dim) all
      → length all ≡ length (input is_doc tokens n)
      → IsReading c rows text is_doc
          (token_outputs F (λ id. is_doc && skips (skiplist F c) id) (flat all) 0 tokens)
  reading c rows text is_doc tokens n [] whole e sizes count = absurd (omega (arith, count))
  reading c rows text is_doc tokens n (r ∷ []) whole e sizes count = absurd (omega (arith, count))
  reading c rows text is_doc tokens n (r ∷ r' ∷ rs) whole e (s, (s', sizes)) count =
      let k1 = length-append (ids_of tokens ++ sep_id ∷ []) (replicate n 0) in
      let k2 = length-append (ids_of tokens) (sep_id ∷ []) in
      let k3 = length-map tokens (λ (t : Token). t.id) in
      let dropped : ℕ → Bool = λ id. is_doc && skips (skiplist F c) id in
      let (vecs, offsets) =
        token_outputs-kept dropped 0 tokens (r ∷ r' ∷ []) rs (s, (s', tt)) sizes (omega arith)
          (omega (arith, k1, k2, k3, count)) in
      record {
        padding = n;
        cls_row = r;
        marker_row = r';
        token_rows = rs;
        given =
            ap (λ ts. rows (input is_doc ts n) (replicate (length ts + 3) 1 ++ replicate n 0))
              (sym whole)
            ∙ e;
        vecs = vecs ∙ ap (λ ts. kept dropped ts rs) whole;
        offsets = offsets ∙ ap (λ ts. kept dropped ts (offsets_of ts)) whole;
      }

  -- If the model's output is one row of `dim` numbers for each position of its input, then encoding
  -- a text, where it gives a result, reads the first 297 tokens of a document or the first 45 of a
  -- query; gives the model their identifiers, in order, behind those of CLS and the marker and
  -- before SEP and the padding; and gives each of these tokens that is no punctuation of a document
  -- the row of its own place in the input, and its offset.
  pub colbert_encode-Rows :
      (c : Colbert F) (rows : List ℕ → List ℕ → List (List F32)) (text : Bytes) (is_doc : Bool)
      (tv : TokenVecs F)
      → IsModel c rows
      → colbert_encode F c text is_doc ≡ some tv
      → IsReading c rows text is_doc tv
  unfolding colbert_encode input_ids marker
  colbert_encode-Rows c rows text is_doc tv model e =
      let tokens = content is_doc (c.tokenizer text) in
      let ids = input_ids is_doc tokens in
      let (n, runs) = run_parts c ids (replicate (length ids) 1) (fixed_len c.padded is_doc) in
      elim (Option-cases
        (c.session (ids ++ replicate n 0) (replicate (length ids) 1 ++ replicate n 0))) [
          | inl failed ↦ absurd (cc (rw (runs ∙ failed, colbert_encode) at (e)))
          | inr (output, ran) ↦
              let f = rw (runs ∙ ran, colbert_encode) at (e) in
              let same : tv
                  ≡ token_outputs F (λ id. is_doc && skips (skiplist F c) id) output 0 tokens =
                cc in
              let ones : replicate (length ids) 1 ++ replicate n 0
                  ≡ replicate (length tokens + 3) 1 ++ replicate n 0 =
                ap (λ k. replicate k 1 ++ replicate n 0) (input_ids-length is_doc tokens) in
              rw (same, model.output _ _ output ran)
                (reading c rows text is_doc tokens n _ (content_take is_doc (c.tokenizer text))
                  (ap (λ mask. rows (ids ++ replicate n 0) mask) (sym ones)) (model.sizes _ _)
                  (model.count _ _))
        ]
