-- ===== src/Vault/Lines/Between.antt =====
-- Lines of a text without regard to windows: the text between two positions is among its lines.
use attndb.Prelude.{
  ℕ, zero, suc, ◌-◌, ◌≤◌, ◌≡◌, ◌≢◌, refl, sym, ap, ◌∙◌, true, false, [], ◌∷◌, ◌++◌, take,
  if◌then◌else◌, ◌==◌, arith, Bool-cases, ◌⊎◌, inl, inr, All,
}
use attndb.Prelude.Text.{Bytes, slice}
use attndb.Vault.Lines.{newlines}

-- The text behind its first `k` line breaks, and its first `n` lines with their breaks.
unfoldable pub after : ℕ → Bytes → Bytes
after zero t = t
after (suc k) [] = []
after (suc k) (c ∷ t) =
    let ended = after k t in let more = after (suc k) t in if c == b'\n' then ended else more

unfoldable pub upto : ℕ → Bytes → Bytes
upto zero t = []
upto (suc n) [] = []
upto (suc n) (c ∷ t) =
    let ended = upto n t in let more = upto (suc n) t in c ∷ (if c == b'\n' then ended else more)

abbrev pub NoBreak : Bytes → Type 0
NoBreak l = All (λ c. c ≢ b'\n') l

pub after-empty : (k : ℕ) → after k [] ≡ []
unfolding after
after-empty zero = refl
after-empty (suc k) = refl

pub after_zero : (t : Bytes) → after 0 t ≡ t
unfolding after
after_zero t = refl

pub upto-empty : (n : ℕ) → upto n [] ≡ []
unfolding upto
upto-empty zero = refl
upto-empty (suc n) = refl

pub Nat-cases : (n : ℕ) → (n ≡ 0) ⊎ ((k : ℕ) × (n ≡ suc k))
Nat-cases zero = inl refl
Nat-cases (suc k) = inr (k, refl)

pub take_empty : {A : Type 0} (n : ℕ) → take {A = A} n [] ≡ []
take_empty zero = refl
take_empty (suc n) = refl

newlines-break : (c : ℕ) (t : Bytes) → (c == b'\n') ≡ true → newlines (c ∷ t) ≡ suc (newlines t)
unfolding newlines
newlines-break c t e = rw (e, if◌then◌else◌) refl

newlines-plain : (c : ℕ) (t : Bytes) → (c == b'\n') ≡ false → newlines (c ∷ t) ≡ newlines t
unfolding newlines
newlines-plain c t e = rw (e, if◌then◌else◌) refl

upto-break : (c n : ℕ) (t : Bytes) → (c == b'\n') ≡ true → upto (suc n) (c ∷ t) ≡ c ∷ upto n t
unfolding upto
upto-break c n t e = rw (e, if◌then◌else◌) refl

upto-plain :
    (c n : ℕ) (t : Bytes) → (c == b'\n') ≡ false → upto (suc n) (c ∷ t) ≡ c ∷ upto (suc n) t
unfolding upto
upto-plain c n t e = rw (e, if◌then◌else◌) refl

after-break : (c k : ℕ) (t : Bytes) → (c == b'\n') ≡ true → after (suc k) (c ∷ t) ≡ after k t
unfolding after
after-break c k t e = rw (e, if◌then◌else◌) refl

after-plain : (c k : ℕ) (t : Bytes) → (c == b'\n') ≡ false → after (suc k) (c ∷ t) ≡ after (suc k) t
unfolding after
after-plain c k t e = rw (e, if◌then◌else◌) refl

-- The text up to a position is among the lines up to that position.
upto_position :
    (b : ℕ) (t : Bytes) → (post : Bytes) × (upto (suc (newlines (take b t))) t ≡ take b t ++ post)
upto_position zero t = (upto (suc (newlines [])) t, refl)
upto_position (suc b) [] = ([], upto-empty (suc (newlines [])))
upto_position (suc b) (c ∷ t) =
    let (post, e) = upto_position b t in
    elim (Bool-cases (c == b'\n')) [
      | inl brk ↦ (
        post,
        ap (λ n. upto (suc n) (c ∷ t)) (newlines-break c (take b t) brk)
            ∙ upto-break c (suc (newlines (take b t))) t brk
            ∙ ap (λ x. c ∷ x) e,
      )
      | inr plain ↦ (
        post,
        ap (λ n. upto (suc n) (c ∷ t)) (newlines-plain c (take b t) plain)
            ∙ upto-plain c (newlines (take b t)) t plain
            ∙ ap (λ x. c ∷ x) e,
      )
    ]

-- The lines from the one that holds the position `a` to the one that holds `b`.
abbrev lines_between : ℕ → ℕ → Bytes → Bytes
lines_between a b t =
    upto (suc (newlines (take b t)) - newlines (take a t)) (after (newlines (take a t)) t)

-- A text with something before and behind it.
abbrev pub Holds : Bytes → Bytes → Type 0
Holds whole part = (pre : Bytes) × (post : Bytes) × (whole ≡ pre ++ (part ++ post))

pub newlines_mono : (a b : ℕ) (t : Bytes) → a ≤ b → newlines (take a t) ≤ newlines (take b t)
unfolding newlines
newlines_mono zero b t le = omega arith
newlines_mono (suc a) zero t le = absurd (omega arith)
newlines_mono (suc a) (suc b) [] le = omega arith
newlines_mono (suc a) (suc b) (c ∷ t) le = ground (arith, newlines_mono a b t (omega arith))

-- The text between two positions is among these lines.
pub between : (a b : ℕ) (t : Bytes) → a ≤ b → Holds (lines_between a b t) (slice t a b)
between zero b t le =
    let (post, e) = upto_position b t in
    let m : suc (newlines (take b t)) - 0 ≡ suc (newlines (take b t)) = omega arith in
    let n : b - 0 ≡ b = omega arith in ([], post, unfold newlines after in rw (m, n) e)
between (suc a) zero t le = absurd (omega arith)
between (suc a) (suc b) [] le = (
  [],
  [],
  ap (upto (suc (newlines []) - newlines [])) (after-empty (newlines []))
      ∙ upto-empty (suc (newlines []) - newlines [])
      ∙ sym (rw take_empty refl),
)
between (suc a) (suc b) (c ∷ t) le =
    let (pre, post, e) = between a b t (omega arith) in
    let width : suc b - suc a ≡ b - a = omega arith in
    elim (Bool-cases (c == b'\n')) [
      | inl brk ↦
          let count : suc (suc (newlines (take b t))) - suc (newlines (take a t))
              ≡ suc (newlines (take b t)) - newlines (take a t) =
            omega arith in
          (
            pre,
            post,
            rw (newlines-break c (take a t) brk, newlines-break c (take b t) brk)
                (rw (after-break c (newlines (take a t)) t brk) (rw (count, width) e)),
          )
      | inr plain ↦ elim (Nat-cases (newlines (take a t))) [
        | inl first ↦
            let whole : suc (newlines (take b t)) - 0 ≡ suc (newlines (take b t)) = omega arith in
            let e' = rw after_zero at (rw (first, whole) at (e)) in
            (
              c ∷ pre,
              post,
              rw (newlines-plain c (take a t) plain, newlines-plain c (take b t) plain)
                  (rw (first, whole, width)
                    (rw after_zero
                      (upto-plain c (newlines (take b t)) t plain ∙ ap (λ x. c ∷ x) e'))),
            )
        | inr (k, later) ↦
            let skip : after (newlines (take a t)) (c ∷ t) ≡ after (newlines (take a t)) t =
              rw later (after-plain c k t plain) in
            (
              pre,
              post,
              rw (newlines-plain c (take a t) plain, newlines-plain c (take b t) plain)
                  (rw (skip, width) e),
            )
      ]
    ]
