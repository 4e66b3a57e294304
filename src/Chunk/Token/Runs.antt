-- ===== src/Chunk/Token/Runs.antt =====
-- The tokens of `tokenizeOffset` are the runs of bytes that are no white space, from left to right.
use attndb.Prelude.{
  ℕ, zero, suc, ◌+◌, ◌≤◌, ◌<◌, ◌≡◌, true, false, ◌↔◌, Option, none, some, [], ◌∷◌, length,
  get_elem?, arith, Bool-cases, inl, inr,
}
use attndb.Prelude.Text.{Bytes}
use attndb.Core.Spans.{InOrder, Covers, InOrder-not_below}
use attndb.Chunk.Token.{is_space, tokens_from, tokenize_offset}

-- Where the next token of the loop may start.
abbrev from : ℕ → Option ℕ → ℕ
from i none = i
from i (some s) = s

abbrev IsOpen : ℕ → Option ℕ → Type 0
IsOpen i none = Unit
IsOpen i (some s) = s < i

step-InOrder :
    (base : ℕ) (text : Bytes) (i lo hi : ℕ) (start : Option ℕ)
    → IsOpen i start
    → lo ≤ base + from i start
    → base + i + length text ≤ hi
    → InOrder lo hi (tokens_from base text i start)
unfolding tokens_from
step-InOrder base [] i lo hi none o h k = omega arith
step-InOrder base [] i lo hi (some s) o h k = omega arith
step-InOrder base (r ∷ text) i lo hi none o h k = elim (Bool-cases (is_space r)) [
  | inl e ↦ rw e (step-InOrder base text (i + 1) lo hi none tt (omega arith) (omega arith))
  | inr e ↦
      rw e (step-InOrder base text (i + 1) lo hi (some i) (omega arith) (omega arith) (omega arith))
]
step-InOrder base (r ∷ text) i lo hi (some s) o h k = elim (Bool-cases (is_space r)) [
  | inl e ↦ rw e (
    h,
    omega arith,
    step-InOrder base text (i + 1) (base + i) hi none tt (omega arith) (omega arith),
  )
  | inr e ↦
      rw e (step-InOrder base text (i + 1) lo hi (some s) (omega arith) (omega arith) (omega arith))
]

-- A token that is open covers what it has read.
open-Covers :
    (base : ℕ) (text : Bytes) (i s p : ℕ)
    → base + s ≤ p
    → p < base + i
    → Covers (tokens_from base text i (some s)) p
unfolding tokens_from
open-Covers base [] i s p h k = inl (h, k)
open-Covers base (r ∷ text) i s p h k = elim (Bool-cases (is_space r)) [
  | inl e ↦ rw e (inl (h, k))
  | inr e ↦ rw e (open-Covers base text (i + 1) s p h (omega arith))
]

step-Covers :
    (base : ℕ) (text : Bytes) (i k p c : ℕ) (start : Option ℕ)
    → IsOpen i start
    → get_elem? text k ≡ some c
    → p ≡ base + i + k
    → is_space c ≡ false
    → Covers (tokens_from base text i start) p
unfolding tokens_from
step-Covers base [] i k p c start o g e h = absurd (cc)
step-Covers base (r ∷ text) i zero p c none o g e h =
    let r_no_space : is_space r ≡ false = cc in
    rw r_no_space (open-Covers base text (i + 1) i p (omega arith) (omega arith))
step-Covers base (r ∷ text) i zero p c (some s) o g e h =
    let r_no_space : is_space r ≡ false = cc in
    rw r_no_space (open-Covers base text (i + 1) s p (omega arith) (omega arith))
step-Covers base (r ∷ text) i (suc k) p c none o g e h = elim (Bool-cases (is_space r)) [
  | inl x ↦ rw x (step-Covers base text (i + 1) k p c none tt g (omega arith) h)
  | inr x ↦ rw x (step-Covers base text (i + 1) k p c (some i) (omega arith) g (omega arith) h)
]
step-Covers base (r ∷ text) i (suc k) p c (some s) o g e h = elim (Bool-cases (is_space r)) [
  | inl x ↦ rw x (inr (step-Covers base text (i + 1) k p c none tt g (omega arith) h))
  | inr x ↦ rw x (step-Covers base text (i + 1) k p c (some s) (omega arith) g (omega arith) h)
]

step-not-Covers :
    (base : ℕ) (text : Bytes) (i k p c : ℕ) (start : Option ℕ)
    → IsOpen i start
    → get_elem? text k ≡ some c
    → p ≡ base + i + k
    → is_space c ≡ true
    → Covers (tokens_from base text i start) p
    → ⊥
unfolding tokens_from
step-not-Covers base [] i k p c start o g e h v = cc
step-not-Covers base (r ∷ text) i zero p c none o g e h v =
    let space : is_space r ≡ true = cc in
    InOrder-not_below (base + i + 1) (base + i + 1 + length text) p _
      (step-InOrder base text (i + 1) _ _ none tt (omega arith) (omega arith)) (omega arith)
      (rw space at v)
step-not-Covers base (r ∷ text) i zero p c (some s) o g e h v =
    let space : is_space r ≡ true = cc in
    elim (rw space at v) [
      | inl held ↦ absurd (omega arith)
      | inr rest ↦
          InOrder-not_below (base + i + 1) (base + i + 1 + length text) p _
            (step-InOrder base text (i + 1) _ _ none tt (omega arith) (omega arith)) (omega arith)
            rest
    ]
step-not-Covers base (r ∷ text) i (suc k) p c none o g e h v = elim (Bool-cases (is_space r)) [
  | inl x ↦ step-not-Covers base text (i + 1) k p c none tt g (omega arith) h (rw x at v)
  | inr x ↦
      step-not-Covers base text (i + 1) k p c (some i) (omega arith) g (omega arith) h (rw x at v)
]
step-not-Covers base (r ∷ text) i (suc k) p c (some s) o g e h v = elim (Bool-cases (is_space r)) [
  | inl x ↦ elim (rw x at v) [
    | inl held ↦ absurd (omega arith)
    | inr rest ↦ step-not-Covers base text (i + 1) k p c none tt g (omega arith) h rest
  ]
  | inr x ↦
      step-not-Covers base text (i + 1) k p c (some s) (omega arith) g (omega arith) h (rw x at v)
]

-- The tokens of a text that starts at `base` are nonempty, lie in the text from left to right with
-- no overlap, and a byte of the text is in a token exactly when it is no white space.
pub tokenize_offset-Covers :
    (text : Bytes) (base : ℕ)
    → InOrder base (base + length text) (tokenize_offset text base)
      × ((k c : ℕ)
          → get_elem? text k ≡ some c
          → Covers (tokenize_offset text base) (base + k) ↔ (is_space c ≡ false))
unfolding tokenize_offset
tokenize_offset-Covers text base = (
  step-InOrder base text 0 base _ none tt (omega arith) (omega arith),
  λ k c g. (
    λ v. elim (Bool-cases (is_space c)) [
      | inl e ↦ absurd (step-not-Covers base text 0 k (base + k) c none tt g (omega arith) e v)
      | inr e ↦ e
    ],
    λ e. step-Covers base text 0 k (base + k) c none tt g (omega arith) e,
  ),
)
