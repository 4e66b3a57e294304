-- ===== src/Vault/Glob/Matches.antt =====
-- Which names a glob matches, told segment by segment.
pub mod Segment
pub mod Rounds
pub mod Decides
use attndb.Prelude.{
  ℕ, ◌≡◌, ◌≢◌, refl, sym, ap, ◌∙◌, Bool, true, false, ◌↔◌, List, [], ◌∷◌, ◌++◌, append_assoc, ◌||◌,
  ◌&&◌, subst, ◌⊎◌, append-nil, if◌then◌else◌, ◌==◌, arith, All, Bool-cases, List-cases, inl, inr,
}
use attndb.Prelude.Text.{codes, bytes_eq, bytes_eq_iff, split, split_some}
use attndb.Vault.Glob.{
  Runes, Item, anything, segments, in_segment, one_char, literal, Behind, not_slash, not_newline,
  many, many_segments, one_of, run, at_end, match_string, double_star, char_item, segment_items,
  glob_items, vault_glob,
}

-- `*` is any run of characters but `/`, `?` is one, and every other character is itself.
pub data InSegment : Runes → Runes → Type 0 where
  nil : InSegment [] []
  star_end : {p s : Runes} → InSegment p s → InSegment (b'*' ∷ p) s
  star_more :
      {p s : Runes} (c : ℕ) → c ≢ b'/' → InSegment (b'*' ∷ p) s → InSegment (b'*' ∷ p) (c ∷ s)
  one : {p s : Runes} (c : ℕ) → c ≢ b'/' → InSegment p s → InSegment (b'?' ∷ p) (c ∷ s)
  same : {p s : Runes} (c : ℕ) → c ≢ b'*' → c ≢ b'?' → InSegment p s → InSegment (c ∷ p) (c ∷ s)

-- A whole segment: it is not empty and has no `/`.
pub record IsSegment (a : Runes) : Type 0 where
  pub full : a ≢ []
  pub plain : All (λ c. c ≢ b'/') a

-- The segments of the pattern against the name. `**` is any number of whole segments, each with its
-- `/`, and as the last segment any text without a line break.
pub data IsMatch : List Runes → Runes → Type 0 where
  tail : {s : Runes} → All (λ c. c ≢ b'\n') s → IsMatch (double_star ∷ []) s
  last : {p s : Runes} → p ≢ double_star → InSegment p s → IsMatch (p ∷ []) s
  none_here :
      {q : Runes} {ps : List Runes} {s : Runes}
      → IsMatch (q ∷ ps) s
      → IsMatch (double_star ∷ q ∷ ps) s
  one_here :
      {q : Runes} {ps : List Runes} {s : Runes} (a : Runes)
      → IsSegment a
      → IsMatch (double_star ∷ q ∷ ps) s
      → IsMatch (double_star ∷ q ∷ ps) (a ++ b'/' ∷ s)
  segment :
      {p q : Runes} {ps : List Runes} {a s : Runes}
      → p ≢ double_star
      → InSegment p a
      → IsMatch (q ∷ ps) s
      → IsMatch (p ∷ q ∷ ps) (a ++ b'/' ∷ s)
