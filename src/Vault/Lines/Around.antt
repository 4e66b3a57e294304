-- ===== src/Vault/Lines/Around.antt =====
-- The lines that a position range falls on hold its text.
use attndb.Prelude.{
  ℕ, suc, ◌+◌, ◌-◌, ◌≤◌, ◌<◌, length-take, [], ◌∷◌, ◌≡◌, ap, ◌∙◌, length, take, min, arith,
  List-cases, inl, inr,
}
use attndb.Prelude.Int.{pos}
use attndb.Prelude.Text.{Bytes, slice, split, split_some}
use attndb.Vault.Lines.{editor_lines, max_int, read_window, newlines, line_of}
use attndb.Vault.Lines.Verbatim.{join-split, editor_lines-text_of}
use attndb.Vault.Lines.Between.{after, upto, Holds, newlines_mono, between}
use attndb.Vault.Lines.Windows.{content-lines, editor_lines-NoBreak, split-NoBreak}

read_window-lines :
    (text : Bytes) (k n : ℕ)
    → k + suc n ≤ max_int
    → (read_window text (pos (k + 1)) (pos (suc n))).content ≡ upto (suc n) (after k text)
unfolding read_window
read_window-lines text k n room = elim (List-cases (split b'\n' text)) [
  | inl e ↦ absurd (split_some b'\n' text e)
  | inr (l, parts, e) ↦
      let plain = editor_lines-NoBreak (split b'\n' text) (split-NoBreak text) in
      let whole = editor_lines-text_of l parts in
      let all = join-split text in
      content-lines (editor_lines (split b'\n' text)).0 (editor_lines (split b'\n' text)).1 k n
        plain room
      ∙ ap (λ t. upto (suc n) (after k t)) (rw e whole ∙ (rw e at all))
]

newlines-length : (text : Bytes) → newlines text ≤ length text
unfolding newlines
newlines-length [] = omega arith
newlines-length (c ∷ text) = ground (arith, newlines-length text)

-- For two positions of a text, the first not behind the second: reading from the line that the first
-- falls on as many lines as lead to the line of the second gives lines that hold the text between
-- the positions, byte for byte, if the length of the text is less than the largest int.
pub read_window-Holds :
    (text : Bytes) (a b : ℕ)
    → a ≤ b
    → b ≤ length text
    → length text < max_int
    → Holds
        (read_window text
          (pos (line_of text a))
          (pos (suc (line_of text b) - line_of text a))).content
        (slice text a b)
unfolding line_of
read_window-Holds text a b le inside small =
    let at_a : min a (length text) ≡ a = omega arith in
    let at_b : min b (length text) ≡ b = omega arith in
    let mono = newlines_mono a b text le in
    let start : 1 + newlines (take a text) ≡ newlines (take a text) + 1 = omega arith in
    let width : suc (1 + newlines (take b text)) - (newlines (take a text) + 1)
        ≡ suc (newlines (take b text) - newlines (take a text)) =
      omega (arith, mono) in
    let same : suc (newlines (take b text)) - newlines (take a text)
        ≡ suc (newlines (take b text) - newlines (take a text)) =
      omega (arith, mono) in
    let (pre, post, e) = between a b text le in
    let lines =
      read_window-lines text (newlines (take a text))
        (newlines (take b text) - newlines (take a text))
        (let few = newlines-length (take b text) in
          let short = length-take b text in omega (arith, mono, few, short)) in
    (pre, post, rw (at_a, at_b, start, width) (lines ∙ (rw same at (e))))

-- A later position falls on no earlier line.
pub line_of_mono : (text : Bytes) (a b : ℕ) → a ≤ b → line_of text a ≤ line_of text b
unfolding line_of
line_of_mono text a b le =
    omega (arith, newlines_mono (min a (length text)) (min b (length text)) text (omega arith))
