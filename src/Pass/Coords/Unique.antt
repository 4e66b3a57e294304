-- ===== src/Pass/Coords/Unique.antt =====
-- A record's identifier tells which document and which span the record is of.
use attndb.Prelude.{
  ℕ, zero, suc, ◌+◌, ◌-◌, ◌*◌, ◌/◌, ◌%◌, ◌≤◌, ◌<◌, ◌≡◌, ◌≢◌, refl, sym, ap, ◌∙◌, subst, [], ◌∷◌,
  ◌++◌, if◌then◌else◌, ltb, tests, arith, Bool-cases, inl, inr, All, All-append, All-map,
}
use attndb.Prelude.Text.{Bytes, codes}
use attndb.Core.Types.{Chunk}
use attndb.Pass.Coords.{decimal_from, decimal, record_id}

-- The number that decimal digits stand for, after the digits read so far.
value_from : ℕ → Bytes → ℕ
value_from n [] = n
value_from n (c ∷ digits) = value_from (n * 10 + (c - b'0')) digits

decimal_from-value :
    (fuel n : ℕ) (digits : Bytes)
    → n < fuel
    → value_from 0 (decimal_from fuel n digits) ≡ value_from n digits
unfolding decimal_from value_from
decimal_from-value zero n digits h = absurd (omega arith)
decimal_from-value (suc fuel) n digits h = elim (Bool-cases (ltb n 10)) [
  | inl small ↦
      rw (small, if◌then◌else◌) (let e : 0 * 10 + (b'0' + n - b'0') ≡ n = omega arith in rw e refl)
  | inr large ↦
      rw (large, if◌then◌else◌)
        (let smaller : n / 10 < fuel = ground arith in
          let e : n / 10 * 10 + (b'0' + n % 10 - b'0') ≡ n = omega arith in
          decimal_from-value fuel (n / 10) ((b'0' + n % 10) ∷ digits) smaller ∙ rw e refl)
]

decimal-value : (n : ℕ) → value_from 0 (decimal n) ≡ n
unfolding decimal value_from
decimal-value n = decimal_from-value (suc n) n [] (omega arith)

decimal_injective : (a b : ℕ) → decimal a ≡ decimal b → a ≡ b
decimal_injective a b e = sym (decimal-value a) ∙ ap (value_from 0) e ∙ decimal-value b

-- A byte of a decimal number.
abbrev IsDigit : ℕ → Type 0
IsDigit c = (b'0' ≤ c) × (c ≤ b'9')

decimal_from-IsDigit :
    (fuel n : ℕ) (digits : Bytes) → All IsDigit digits → All IsDigit (decimal_from fuel n digits)
unfolding decimal_from
decimal_from-IsDigit zero n digits h = h
decimal_from-IsDigit (suc fuel) n digits h = elim (Bool-cases (ltb n 10)) [
  | inl small ↦ rw (small, if◌then◌else◌) (omega tests, h)
  | inr large ↦
      rw (large, if◌then◌else◌)
        (decimal_from-IsDigit fuel (n / 10) ((b'0' + n % 10) ∷ digits) (omega arith, h))
]

decimal-IsDigit : (n : ℕ) → All IsDigit (decimal n)
unfolding decimal
decimal-IsDigit n = decimal_from-IsDigit (suc n) n [] tt

not_in : (c : ℕ) (b v : Bytes) → All (λ x. x ≢ c) (b ++ c ∷ v) → ⊥
not_in c [] v (h, hv) = h refl
not_in c (x ∷ b) v (h, hb) = not_in c b v hb

-- Two texts with one separator each, behind which it does not occur, have the same parts.
last_separator :
    (c : ℕ) (a b u v : Bytes)
    → All (λ x. x ≢ c) u
    → All (λ x. x ≢ c) v
    → a ++ c ∷ u ≡ b ++ c ∷ v
    → (a ≡ b) × (u ≡ v)
last_separator c [] [] u v hu hv e = (refl, cc)
last_separator c [] (y ∷ b) u v hu hv e =
    let t : u ≡ b ++ c ∷ v = cc in absurd (not_in c b v (subst (All (λ x. x ≢ c)) t hu))
last_separator c (x ∷ a) [] u v hu hv e =
    let t : v ≡ a ++ c ∷ u = cc in absurd (not_in c a u (subst (All (λ x. x ≢ c)) t hv))
last_separator c (x ∷ a) (y ∷ b) u v hu hv e =
    let (same, rest) = last_separator c a b u v hu hv (cc) in let first : x ≡ y = cc in (cc, rest)

prefix_cancel : (p s t : Bytes) → p ++ s ≡ p ++ t → s ≡ t
prefix_cancel [] s t e = e
prefix_cancel (x ∷ p) s t e = prefix_cancel p s t (cc)

-- The digits are neither a dash nor a colon.
no_dash : (n : ℕ) → All (λ x. x ≢ b'-') (decimal n)
no_dash n = All-map (λ x (lo, hi) e. omega arith) (decimal n) (decimal-IsDigit n)

no_colon : (a b : ℕ) → All (λ x. x ≢ b':') (decimal a ++ b'-' ∷ decimal b)
no_colon a b =
    let digits : (n : ℕ) → All (λ x. x ≢ b':') (decimal n) =
      λ n. All-map (λ x (lo, hi) e. omega arith) (decimal n) (decimal-IsDigit n) in
    All-append (λ x. x ≢ b':') (decimal a) (b'-' ∷ decimal b) (digits a)
      (λ e. omega arith, digits b)

-- Two chunks that one pass stores under the same identifier are of the same document, whatever
-- characters its own identifier has, and have the same span.
pub record_id_injective :
    (pass : Bytes) (c c' : Chunk)
    → record_id pass c ≡ record_id pass c'
    → (c.doc_id ≡ c'.doc_id) × (c.span.start ≡ c'.span.start) × (c.span.end ≡ c'.span.end)
unfolding record_id
record_id_injective pass c c' e =
    let colon = prefix_cancel (codes ":") _ _ (prefix_cancel pass _ _ e) in
    let (doc, rest) =
      last_separator b':' c.doc_id c'.doc_id (decimal c.span.start ++ b'-' ∷ decimal c.span.end)
        (decimal c'.span.start ++ b'-' ∷ decimal c'.span.end) (no_colon c.span.start c.span.end)
        (no_colon c'.span.start c'.span.end) colon in
    let (start, end) =
      last_separator b'-' (decimal c.span.start) (decimal c'.span.start) (decimal c.span.end)
        (decimal c'.span.end) (no_dash c.span.end) (no_dash c'.span.end) rest in
    (
      doc,
      decimal_injective c.span.start c'.span.start start,
      decimal_injective c.span.end c'.span.end end,
    )
