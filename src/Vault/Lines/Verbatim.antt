-- ===== src/Vault/Lines/Verbatim.antt =====
-- The windows of a document put together give the document.
use attndb.Prelude.{
  ℕ, zero, suc, ◌+◌, ◌-◌, ◌≤◌, ◌<◌, ◌≡◌, refl, ◌∙◌, ap, Bool, true, false, List, [], ◌∷◌, ◌++◌,
  length, take, drop, min, if◌then◌else◌, ltb, leb, ◌==◌, arith, Bool-cases, List-cases, inl, inr,
  take_all, length-drop, append-nil, append_assoc,
}
use attndb.Prelude.Int.{pos}
use attndb.Prelude.Text.{Bytes, split, join, split_some}
use attndb.Vault.Lines.{
  editor_lines, max_int, wrap_int, window_content, window_start, window_end, window_upto,
  read_window,
}

-- The text of some lines, of which the last has a line break if the flag says so.
abbrev pub text_of : List Bytes → Bool → Bytes
text_of [] nl = []
text_of (l ∷ []) nl = l ++ (if nl then b'\n' ∷ [] else [])
text_of (l ∷ m ∷ lines) nl = l ++ (b'\n' ∷ text_of (m ∷ lines) nl)

join-cons :
    (c : ℕ) (p : Bytes) (ps : List Bytes)
    → join (b'\n' ∷ []) ((c ∷ p) ∷ ps) ≡ c ∷ join (b'\n' ∷ []) (p ∷ ps)
unfolding join
join-cons c p [] = refl
join-cons c p (q ∷ ps) = refl

pub join-split : (text : Bytes) → join (b'\n' ∷ []) (split b'\n' text) ≡ text
unfolding join split
join-split [] = refl
join-split (c ∷ text) = elim (List-cases (split b'\n' text)) [
  | inl e ↦ absurd (split_some b'\n' text e)
  | inr (p, ps, e) ↦ elim (Bool-cases (c == b'\n')) [
    | inl found ↦
        let newline : b'\n' ≡ c = ground arith in
        let rest : join (b'\n' ∷ []) (p ∷ ps) ≡ text = rw e at (join-split text) in
        rw (e, split) (rw (found, if◌then◌else◌) (cc (newline, rest)))
    | inr other ↦
        let rest : join (b'\n' ∷ []) (p ∷ ps) ≡ text = rw e at (join-split text) in
        rw (e, split) (rw (other, if◌then◌else◌) (join-cons c p ps ∙ ap (λ t. c ∷ t) rest))
  ]
]

-- No line is left only of a text that is empty behind the last line break.
none_left :
    (l : Bytes) (parts : List Bytes)
    → (editor_lines (l ∷ parts)).0 ≡ []
    → (editor_lines (l ∷ parts)).1 ≡ true
unfolding editor_lines
none_left [] [] e = refl
none_left (c ∷ l) [] e = cc
none_left l (m ∷ parts) e = cc

text_of-cons :
    (l : Bytes) (lines : List Bytes) (nl : Bool)
    → (lines ≡ [] → nl ≡ true)
    → text_of (l ∷ lines) nl ≡ l ++ (b'\n' ∷ text_of lines nl)
text_of-cons l [] nl h = rw (h refl, if◌then◌else◌) refl
text_of-cons l (m ∷ lines) nl h = refl

pub editor_lines-text_of :
    (l : Bytes) (parts : List Bytes)
    → text_of (editor_lines (l ∷ parts)).0 (editor_lines (l ∷ parts)).1
      ≡ join (b'\n' ∷ []) (l ∷ parts)
unfolding join editor_lines
editor_lines-text_of [] [] = refl
editor_lines-text_of (c ∷ l) [] = append-nil (c ∷ l)
editor_lines-text_of l (m ∷ parts) =
    text_of-cons l (editor_lines (m ∷ parts)).0 (editor_lines (m ∷ parts)).1 (none_left m parts)
    ∙ ap (λ t. l ++ (b'\n' ∷ t)) (editor_lines-text_of m parts)

join-text_of :
    (l : Bytes) (lines : List Bytes) (nl : Bool)
    → join (b'\n' ∷ []) (l ∷ lines) ++ (if nl then b'\n' ∷ [] else []) ≡ text_of (l ∷ lines) nl
unfolding join
join-text_of l [] nl = refl
join-text_of l (m ∷ lines) nl =
    append_assoc l (b'\n' ∷ join (b'\n' ∷ []) (m ∷ lines)) (if nl then b'\n' ∷ [] else [])
    ∙ ap (λ t. l ++ (b'\n' ∷ t)) (join-text_of m lines nl)

-- The first lines, and the rest.
text_of-drop :
    (k : ℕ) (lines : List Bytes) (nl : Bool)
    → 0 < k
    → k < length lines
    → (join (b'\n' ∷ []) (take k lines) ++ (b'\n' ∷ [])) ++ text_of (drop k lines) nl
      ≡ text_of lines nl
unfolding join
text_of-drop k [] nl p b = absurd (omega arith)
text_of-drop zero (l ∷ lines) nl p b = absurd (omega arith)
text_of-drop (suc k) (l ∷ []) nl p b = absurd (omega arith)
text_of-drop (suc zero) (l ∷ m ∷ lines) nl p b =
    append_assoc l (b'\n' ∷ []) (text_of (m ∷ lines) nl)
text_of-drop (suc (suc k)) (l ∷ m ∷ lines) nl p b =
    ap (λ t. t ++ text_of (drop k lines) nl)
      (append_assoc l (b'\n' ∷ join (b'\n' ∷ []) (m ∷ take k lines)) (b'\n' ∷ []))
    ∙ append_assoc l (b'\n' ∷ (join (b'\n' ∷ []) (m ∷ take k lines) ++ (b'\n' ∷ [])))
        (text_of (drop k lines) nl)
    ∙ ap (λ t. l ++ (b'\n' ∷ t)) (text_of-drop (suc k) (m ∷ lines) nl (omega arith) (omega arith))

-- From some line to the last.
content_to_end :
    (lines : List Bytes) (nl : Bool) (j : ℕ)
    → window_content lines nl (suc j) (length lines) ≡ text_of (drop j lines) nl
unfolding window_content
content_to_end lines nl j =
    let before : suc j - 1 ≡ j = omega arith in
    let size = length-drop j lines in
    elim (List-cases (drop j lines)) [
      | inl e ↦
          let left : length (drop j lines) ≡ 0 = ap length e in
          let past : leb (suc j) (length lines) ≡ false = ground arith in rw (past, e) refl
      | inr (l, rest, e) ↦
          let left : length (drop j lines) ≡ suc (length rest) = ap length e in
          let inside : leb (suc j) (length lines) ≡ true = ground arith in
          let last : ltb (length lines) (length lines) ≡ false = ground arith in
          rw (inside, before, ← size, take_all, e, last) (join-text_of l rest nl)
    ]

content_first :
    (lines : List Bytes) (nl : Bool) (k : ℕ)
    → 0 < k
    → k < length lines
    → window_content lines nl 1 k ≡ join (b'\n' ∷ []) (take k lines) ++ (b'\n' ∷ [])
unfolding window_content
content_first lines nl k p b =
    let inside : leb 1 k ≡ true = ground arith in
    let more : ltb k (length lines) ≡ true = ground arith in
    let whole : k - 0 ≡ k = omega arith in rw (inside, more, whole) refl

content_split :
    (lines : List Bytes) (nl : Bool) (k : ℕ)
    → 0 < k
    → k < length lines
    → window_content lines nl 1 k ++ window_content lines nl (k + 1) (length lines)
      ≡ text_of lines nl
content_split lines nl k p b =
    let next : k + 1 ≡ suc k = omega arith in
    rw (next, content_first lines nl k p b, content_to_end lines nl k) (text_of-drop k lines nl p b)

drop_all : (lines : List Bytes) → drop (length lines) lines ≡ []
drop_all [] = refl
drop_all (l ∷ lines) = drop_all lines

content_all :
    (lines : List Bytes) (nl : Bool)
    → window_content lines nl 1 (length lines)
        ++ window_content lines nl (suc (length lines)) (length lines)
      ≡ text_of lines nl
content_all lines nl =
    rw (content_to_end lines nl (length lines), drop_all lines)
      (append-nil (window_content lines nl 1 (length lines)) ∙ content_to_end lines nl 0)

start_one : (total : ℕ) → window_start (pos 1) total ≡ 1
unfolding window_start
start_one total = ground arith

pub start_next : (k total : ℕ) → k < total → window_start (pos (k + 1)) total ≡ k + 1
unfolding window_start
start_next k total b = ground arith

pub start_past : (k total : ℕ) → total ≤ k → window_start (pos (k + 1)) total ≡ total + 1
unfolding window_start
start_past k total b = ground arith

pub end_of :
    (n start total : ℕ)
    → 0 < n
    → 1 ≤ start
    → start + n - 1 ≤ max_int
    → window_end (pos n) start total ≡ pos (min (start + n - 1) total)
unfolding window_end wrap_int
end_of n start total p q b = ground arith

-- The windows of some lines, one behind the other.
windows_tile :
    (lines : List Bytes) (nl : Bool) (k n : ℕ)
    → 0 < k
    → 0 < n
    → length lines ≤ n
    → k + n ≤ max_int
    → window_upto lines nl
          (window_start (pos 1) (length lines))
          (window_end (pos k) (window_start (pos 1) (length lines)) (length lines))
        ++ window_upto lines nl
            (window_start (pos (k + 1)) (length lines))
            (window_end (pos n) (window_start (pos (k + 1)) (length lines)) (length lines))
      ≡ text_of lines nl
unfolding window_upto
windows_tile lines nl k n p q b room = elim (Bool-cases (ltb k (length lines))) [
  | inl more ↦
      let inside : k < length lines = ground arith in
      let e : min (1 + k - 1) (length lines) ≡ k = omega arith in
      let f : min (k + 1 + n - 1) (length lines) ≡ length lines = omega arith in
      rw
        (
          start_one (length lines),
          start_next k (length lines) inside,
          end_of k 1 (length lines) p (omega arith) (omega arith),
          end_of n (k + 1) (length lines) q (omega arith) (omega arith),
          e,
          f,
        )
        (content_split lines nl k p inside)
  | inr last ↦
      let past : length lines ≤ k = ground arith in
      let e : min (1 + k - 1) (length lines) ≡ length lines = omega arith in
      let f : min (length lines + 1 + n - 1) (length lines) ≡ length lines = omega arith in
      let next : length lines + 1 ≡ suc (length lines) = omega arith in
      rw
        (
          start_one (length lines),
          start_past k (length lines) past,
          end_of k 1 (length lines) p (omega arith) (omega arith),
          end_of n (length lines + 1) (length lines) q (omega arith) (omega arith),
          e,
          f,
          next,
        )
        (content_all lines nl)
]

-- If a document has no more than `n` lines, and `k` and `n` have a sum that is an int, the window of
-- its first `k` lines and the window of `n` lines from the next line on are together the document,
-- byte for byte.
pub read_window-Tiles :
    (text : Bytes) (k n : ℕ)
    → 0 < k
    → 0 < n
    → (read_window text (pos 1) (pos k)).total_lines ≤ n
    → k + n ≤ max_int
    → (read_window text (pos 1) (pos k)).content ++ (read_window text (pos (k + 1)) (pos n)).content
      ≡ text
unfolding read_window
read_window-Tiles text k n p q b room = elim (List-cases (split b'\n' text)) [
  | inl e ↦ absurd (split_some b'\n' text e)
  | inr (l, parts, e) ↦
      let whole = editor_lines-text_of l parts in
      let all = join-split text in
      windows_tile (editor_lines (split b'\n' text)).0 (editor_lines (split b'\n' text)).1 k n p q b
        room
      ∙ rw e whole
      ∙ (rw e at all)
]
