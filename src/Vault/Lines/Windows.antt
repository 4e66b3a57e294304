-- ===== src/Vault/Lines/Windows.antt =====
-- A window of lines is those lines of the text.
use attndb.Prelude.{
  ℕ, zero, suc, ◌+◌, ◌-◌, ◌≤◌, ◌<◌, ◌≡◌, ◌≢◌, refl, sym, ap, ◌∙◌, Bool, true, false, ◌||◌, List, [],
  ◌∷◌, ◌++◌, length, take, drop, min, if◌then◌else◌, ltb, leb, ◌==◌, arith, Bool-cases, List-cases,
  inl, inr, length-drop, append-nil, append_assoc, All,
}
use attndb.Prelude.Int.{pos}
use attndb.Prelude.Text.{Bytes, split, split_some, join}
use attndb.Vault.Lines.{
  max_int, window_upto, editor_lines, window_content, window_start, window_end,
}
use attndb.Vault.Lines.Verbatim.{text_of, start_next, start_past, end_of}
use attndb.Vault.Lines.Between.{after, upto, NoBreak, after-empty, upto-empty, take_empty}

other : (c : ℕ) → c ≢ b'\n' → (c == b'\n') ≡ false
other c ne = ground arith

after-line : (k : ℕ) (l t : Bytes) → NoBreak l → after (suc k) (l ++ b'\n' ∷ t) ≡ after k t
unfolding after
after-line k [] t _ = refl
after-line k (c ∷ l) t (ne, more) = rw (other c ne, if◌then◌else◌) (after-line k l t more)

after-last : (k : ℕ) (l : Bytes) → NoBreak l → after (suc k) l ≡ []
unfolding after
after-last k [] _ = refl
after-last k (c ∷ l) (ne, more) = rw (other c ne, if◌then◌else◌) (after-last k l more)

upto-line :
    (n : ℕ) (l t : Bytes) → NoBreak l → upto (suc n) (l ++ b'\n' ∷ t) ≡ l ++ b'\n' ∷ upto n t
unfolding upto
upto-line n [] t _ = refl
upto-line n (c ∷ l) t (ne, more) =
    rw (other c ne, if◌then◌else◌) (ap (λ x. c ∷ x) (upto-line n l t more))

upto-last : (n : ℕ) (l : Bytes) → NoBreak l → upto (suc n) l ≡ l
unfolding upto
upto-last n [] _ = refl
upto-last n (c ∷ l) (ne, more) =
    rw (other c ne, if◌then◌else◌) (ap (λ x. c ∷ x) (upto-last n l more))

gone : (k : ℕ) (nl : Bool) → [] ≡ text_of (drop k []) nl
gone zero nl = refl
gone (suc k) nl = refl

after-text_of :
    (k : ℕ) (lines : List Bytes) (nl : Bool)
    → All NoBreak lines
    → after k (text_of lines nl) ≡ text_of (drop k lines) nl
after-text_of zero lines nl h = unfold after in refl
after-text_of (suc k) [] nl h = after-empty (suc k)
after-text_of (suc k) (l ∷ []) true (p, h) = after-line k l [] p ∙ after-empty k ∙ gone k true
after-text_of (suc k) (l ∷ []) false (p, h) = rw append-nil (after-last k l p ∙ gone k false)
after-text_of (suc k) (l ∷ m ∷ lines) nl (p, h) =
    after-line k l (text_of (m ∷ lines) nl) p ∙ after-text_of k (m ∷ lines) nl h

last_line :
    (n : ℕ) (l : Bytes) (nl : Bool)
    → NoBreak l
    → join (b'\n' ∷ []) (take (suc n) (l ∷ []))
        ++ (if ltb (suc n) (length (l ∷ [])) || nl then b'\n' ∷ [] else [])
      ≡ upto (suc n) (text_of (l ∷ []) nl)
unfolding join
last_line n l true p =
    let e : ltb (suc n) 1 ≡ false = ground arith in
    rw (take_empty n, e) (sym (upto-line n l [] p ∙ ap (λ t. l ++ b'\n' ∷ t) (upto-empty n)))
last_line n l false p =
    let e : ltb (suc n) 1 ≡ false = ground arith in
    rw (take_empty n, e) (rw append-nil (sym (upto-last n l p)))

pub upto-text_of :
    (n : ℕ) (l : Bytes) (lines : List Bytes) (nl : Bool)
    → All NoBreak (l ∷ lines)
    → join (b'\n' ∷ []) (take (suc n) (l ∷ lines))
        ++ (if ltb (suc n) (length (l ∷ lines)) || nl then b'\n' ∷ [] else [])
      ≡ upto (suc n) (text_of (l ∷ lines) nl)
unfolding join
upto-text_of n l [] nl (p, h) = last_line n l nl p
upto-text_of zero l (m ∷ lines) nl (p, h) =
    let more : ltb 1 (length (l ∷ m ∷ lines)) ≡ true = ground arith in
    rw (more, if◌then◌else◌) (sym (upto-line 0 l (text_of (m ∷ lines) nl) p ∙ unfold upto in refl))
upto-text_of (suc n) l (m ∷ lines) nl (p, h) =
    let same : ltb (suc (suc n)) (length (l ∷ m ∷ lines)) ≡ ltb (suc n) (length (m ∷ lines)) =
      ground arith in
    rw same (
      append_assoc l (b'\n' ∷ join (b'\n' ∷ []) (m ∷ take n lines))
        (if ltb (suc n) (length (m ∷ lines)) || nl then b'\n' ∷ [] else [])
      ∙ ap (λ t. l ++ (b'\n' ∷ t)) (upto-text_of n m lines nl h)
      ∙ sym (upto-line (suc n) l (text_of (m ∷ lines) nl) p))

pub split-NoBreak : (text : Bytes) → All NoBreak (split b'\n' text)
unfolding split
split-NoBreak [] = (tt, tt)
split-NoBreak (c ∷ text) = elim (List-cases (split b'\n' text)) [
  | inl e ↦ absurd (split_some b'\n' text e)
  | inr (p, ps, e) ↦
      let h : All NoBreak (p ∷ ps) = rw e at (split-NoBreak text) in
      elim (Bool-cases (c == b'\n')) [
        | inl brk ↦ rw (e, split) (rw (brk, if◌then◌else◌) (tt, h))
        | inr plain ↦ rw (e, split) (rw (plain, if◌then◌else◌) ((λ x. ground arith, h.0), h.1))
      ]
]

pub editor_lines-NoBreak :
    (lines : List Bytes) → All NoBreak lines → All NoBreak (editor_lines lines).0
unfolding editor_lines
editor_lines-NoBreak [] h = tt
editor_lines-NoBreak ([] ∷ []) h = tt
editor_lines-NoBreak ((c ∷ l) ∷ []) h = h
editor_lines-NoBreak (l ∷ m ∷ lines) (p, h) = (p, editor_lines-NoBreak (m ∷ lines) h)

take-min : {A : Type 0} (n : ℕ) (xs : List A) → take (min n (length xs)) xs ≡ take n xs
take-min zero xs = let e : min 0 (length xs) ≡ 0 = omega arith in rw e refl
take-min (suc n) [] = let e : min (suc n) 0 ≡ 0 = omega arith in rw e refl
take-min (suc n) (x ∷ xs) =
    let e : min (suc n) (suc (length xs)) ≡ suc (min n (length xs)) = omega arith in
    rw e (ap (λ t. x ∷ t) (take-min n xs))

drop-NoBreak : (k : ℕ) (lines : List Bytes) → All NoBreak lines → All NoBreak (drop k lines)
drop-NoBreak zero lines h = h
drop-NoBreak (suc k) [] h = tt
drop-NoBreak (suc k) (l ∷ lines) (p, h) = drop-NoBreak k lines h

content_inside :
    (lines : List Bytes) (nl : Bool) (k n : ℕ)
    → All NoBreak lines
    → k < length lines
    → window_content lines nl (k + 1) (min (k + 1 + suc n - 1) (length lines))
      ≡ upto (suc n) (after k (text_of lines nl))
unfolding window_content
content_inside lines nl k n h inside =
    let size = length-drop k lines in
    let open_ : leb (k + 1) (min (k + 1 + suc n - 1) (length lines)) ≡ true = ground arith in
    let before : k + 1 - 1 ≡ k = omega arith in
    let width : min (k + 1 + suc n - 1) (length lines) - k ≡ min (suc n) (length (drop k lines)) =
      omega (arith, size) in
    let more : ltb (min (k + 1 + suc n - 1) (length lines)) (length lines)
        ≡ ltb (suc n) (length (drop k lines)) =
      ground (arith, size) in
    rw (open_, before, width, more, take-min, after-text_of k lines nl h)
      (elim (List-cases (drop k lines)) [
        | inl none ↦ absurd (let z = ap length none in omega (arith, z, size))
        | inr (l, rest, e) ↦
            let plain = drop-NoBreak k lines h in rw e (upto-text_of n l rest nl (rw e at (plain)))
      ])

content_past :
    (lines : List Bytes) (nl : Bool) (k n : ℕ)
    → All NoBreak lines
    → length lines ≤ k
    → window_content lines nl (length lines + 1) (min (length lines + 1 + suc n - 1) (length lines))
      ≡ upto (suc n) (after k (text_of lines nl))
unfolding window_content
content_past lines nl k n h past =
    let shut : leb (length lines + 1) (min (length lines + 1 + suc n - 1) (length lines)) ≡ false =
      ground arith in
    rw (shut, after-text_of k lines nl h)
      (elim (List-cases (drop k lines)) [
        | inl none ↦ rw (none, upto-empty) refl
        | inr (l, rest, e) ↦
            absurd (let z = ap length e in let size = length-drop k lines in omega (arith, z, size))
      ])

-- A window of lines is those lines of the text.
pub content-lines :
    (lines : List Bytes) (nl : Bool) (k n : ℕ)
    → All NoBreak lines
    → k + suc n ≤ max_int
    → window_upto lines nl
        (window_start (pos (k + 1)) (length lines))
        (window_end (pos (suc n)) (window_start (pos (k + 1)) (length lines)) (length lines))
      ≡ upto (suc n) (after k (text_of lines nl))
unfolding window_upto
content-lines lines nl k n h room = elim (Bool-cases (ltb k (length lines))) [
  | inl inside ↦
      let lt : k < length lines = ground arith in
      rw
        (
          start_next k (length lines) lt,
          end_of (suc n) (k + 1) (length lines) (omega arith) (omega arith) (omega arith),
        )
        (content_inside lines nl k n h lt)
  | inr past ↦
      let le : length lines ≤ k = ground arith in
      rw
        (
          start_past k (length lines) le,
          end_of (suc n) (length lines + 1) (length lines) (omega arith) (omega arith)
              (omega arith),
        )
        (content_past lines nl k n h le)
]
