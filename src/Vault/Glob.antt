-- ===== src/Vault/Glob.antt =====
-- vaultGlob of cmd/attndb/serve.go, and what the package regexp does with the expressions that it
-- builds. Patterns and names are valid UTF-8 and are given by their code points.
pub mod Matches
use attndb.Prelude.{
  ℕ, Bool, true, false, not, ◌&&◌, ◌||◌, List, [], ◌∷◌, ◌++◌, if◌then◌else◌, ◌==◌, ◌≡◌, refl,
}
use attndb.Prelude.Text.{codes, bytes_eq, split}

abbrev pub Runes : Type 0
Runes = List ℕ

-- The parts of an expression `^…$`: `.*`, `(?:[^/]+/)*`, `[^/]*`, `[^/]` and a quoted character.
pub data Item : Type 0 where
  anything : Item
  segments : Item
  in_segment : Item
  one_char : Item
  literal : ℕ → Item

-- What is matched behind the items.
abbrev pub Behind : Type 0
Behind = Runes → Bool

abbrev pub not_slash : ℕ → Bool
not_slash c = not (c == b'/')

-- `.` is any character but a line break.
abbrev pub not_newline : ℕ → Bool
not_newline c = not (c == b'\n')

-- x*, for one character x
unfoldable pub many : (ℕ → Bool) → Behind → Behind
many x k [] = k []
many x k (c ∷ s) = k (c ∷ s) || (x c && many x k s)

-- (?:[^/]+/)*, from the start of a round, or inside one with a character read.
unfoldable pub many_segments : Bool → Behind → Behind
many_segments true k [] = false
many_segments true k (c ∷ s) =
    let ended = many_segments false k s in
    let more = many_segments true k s in if c == b'/' then ended else more
many_segments false k [] = k []
many_segments false k (c ∷ s) = k (c ∷ s) || (not_slash c && many_segments true k s)

one_of : (ℕ → Bool) → Behind → Behind
one_of x k [] = false
one_of x k (c ∷ s) = x c && k s

unfoldable pub run : List Item → Behind → Behind
unfolding many many_segments one_of
run [] k = k
run (anything ∷ items) k = many not_newline (run items k)
run (segments ∷ items) k = many_segments false (run items k)
run (in_segment ∷ items) k = many not_slash (run items k)
run (one_char ∷ items) k = one_of not_slash (run items k)
run (literal c ∷ items) k = one_of (λ x. x == c) (run items k)

pub at_end : Behind
at_end [] = true
at_end (c ∷ s) = false

-- MatchString
unfoldable pub match_string : List Item → Runes → Bool
unfolding run at_end
match_string items s = run items at_end s

abbrev pub double_star : Runes
double_star = codes "**"

unfoldable pub char_item : ℕ → Item
char_item c = if c == b'*' then in_segment else if c == b'?' then one_char else literal c

unfoldable pub segment_items : Runes → List Item
unfolding char_item
segment_items [] = []
segment_items (c ∷ seg) = char_item c ∷ segment_items seg

-- The loop over the segments; the expression always compiles.
unfoldable pub glob_items : List Runes → List Item
unfolding segment_items bytes_eq
glob_items [] = []
glob_items (seg ∷ []) = if bytes_eq seg double_star then anything ∷ [] else segment_items seg
glob_items (seg ∷ next ∷ segs) =
    let rest = glob_items (next ∷ segs) in
    if bytes_eq seg double_star then segments ∷ rest else segment_items seg ++ literal b'/' ∷ rest

unfoldable pub vault_glob : Runes → List Item
unfolding glob_items split
vault_glob pattern = glob_items (split b'/' pattern)

vault_glob_runs :
    (match_string (vault_glob (codes "a/**/*.md")) (codes "a/b.md") ≡ true)
    × (match_string (vault_glob (codes "a/**/*.md")) (codes "a/x/y/b.md") ≡ true)
    × (match_string (vault_glob (codes "a/*.md")) (codes "a/x/b.md") ≡ false)
unfolding match_string vault_glob
vault_glob_runs = (refl, refl, refl)
