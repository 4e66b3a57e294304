-- ===== src/Vault/Find.antt =====
-- `strings.Count`, `strings.ReplaceAll` and `strings.Replace(…, 1)` for a nonempty old string, as
-- `editDoc` calls them: occurrences from left to right that do not overlap.
pub mod Edit
use attndb.Prelude.{
  ℕ, zero, suc, ◌-◌, ◌≡◌, refl, Bool, List, [], ◌∷◌, ◌++◌, length, drop, if◌then◌else◌,
}
use attndb.Prelude.Text.{Bytes, codes, has_prefix}

-- `skip` bytes belong to the occurrence that was found last.
unfoldable pub count_from : Bytes → ℕ → Bytes → ℕ
unfolding has_prefix
count_from old skip [] = 0
count_from old (suc skip) (c ∷ text) = count_from old skip text
count_from old zero (c ∷ text) =
    let found = suc (count_from old (length old - 1) text) in
    let further = count_from old zero text in if has_prefix (c ∷ text) old then found else further

unfoldable pub count_string : Bytes → Bytes → ℕ
unfolding count_from
count_string text old = count_from old 0 text

unfoldable pub replace_from : Bytes → Bytes → ℕ → Bytes → Bytes
unfolding has_prefix
replace_from old new skip [] = []
replace_from old new (suc skip) (c ∷ text) = replace_from old new skip text
replace_from old new zero (c ∷ text) =
    let found = new ++ replace_from old new (length old - 1) text in
    let further = c ∷ replace_from old new zero text in
    if has_prefix (c ∷ text) old then found else further

unfoldable pub replace_all : Bytes → Bytes → Bytes → Bytes
unfolding replace_from
replace_all text old new = replace_from old new 0 text

unfoldable pub replace_first : Bytes → Bytes → Bytes → Bytes
unfolding has_prefix
replace_first [] old new = []
replace_first (c ∷ text) old new =
    let further = c ∷ replace_first text old new in
    if has_prefix (c ∷ text) old then new ++ drop (length old) (c ∷ text) else further

find_runs :
    (count_string (codes "aaab") (codes "aa") ≡ 1)
    × (replace_all (codes "aaab") (codes "aa") (codes "x") ≡ codes "xab")
    × (replace_first (codes "abab") (codes "b") (codes "xy") ≡ codes "axyab")
unfolding count_string replace_all replace_first
find_runs = (refl, refl, refl)
