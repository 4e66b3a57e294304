-- ===== src/Vault/Path.antt =====
-- `vaultName` of cmd/attndb/serve.go.
pub mod Plain
use attndb.Prelude.{◌≡◌, refl, Bool, false, not, ◌||◌, List, [], ◌∷◌, if◌then◌else◌, drop}
use mathlib.Core.List.{reverse}
use attndb.Prelude.Text.{Bytes, codes, bytes_eq, has_prefix, split, join}
use attndb.Corpus.{is_indexable, is_hidden}
use attndb.Vault.Fault.{Result, refused, done, not_absolute, vault_root, not_markdown, hidden}

-- What `path.Clean` does with the components of an absolute path: empty ones and "." are dropped,
-- ".." takes back the one before, and at the root nothing. `kept` is what it has, the last first.
unfoldable pub clean_from : List Bytes → List Bytes → List Bytes
unfolding bytes_eq
clean_from kept [] = kept
clean_from kept (part ∷ parts) =
    let skipped = clean_from kept parts in
    let climbed = clean_from (drop 1 kept) parts in
    let taken = clean_from (part ∷ kept) parts in
    if bytes_eq part [] || bytes_eq part (codes ".")
    then skipped
    else if bytes_eq part (codes "..")
    then climbed
    else taken

-- The components of path.Clean(p), for a path that starts with "/".
unfoldable pub clean : Bytes → List Bytes
unfolding clean_from split
clean p = reverse (clean_from [] (split b'/' p))

-- for _, part := range strings.Split(name, "/") { if strings.HasPrefix(part, ".") … }
unfoldable pub any_hidden : List Bytes → Bool
unfolding is_hidden
any_hidden [] = false
any_hidden (part ∷ parts) = is_hidden part || any_hidden parts

unfoldable pub checked_name : Bytes → Result Bytes
unfolding any_hidden bytes_eq is_indexable split
checked_name name =
    if bytes_eq name [] || bytes_eq name (codes ".")
    then refused vault_root
    else if not (is_indexable name)
    then refused not_markdown
    else if any_hidden (split b'/' name)
    then refused hidden
    else done name

-- `name` is the clean path without its "/"; the code's test of an empty path is one with that of
-- the first byte.
unfoldable pub vault_name : Bytes → Result Bytes
unfolding clean join checked_name has_prefix
vault_name p =
    if has_prefix p (codes "/")
    then checked_name (join (codes "/") (clean p))
    else refused not_absolute

vault_name_runs :
    (vault_name (codes "/a/./b//../c.md") ≡ done (codes "a/c.md"))
    × (vault_name (codes "/../x.md") ≡ done (codes "x.md"))
    × (vault_name (codes "/.git/x.md") ≡ refused hidden)
    × (vault_name (codes "/a.txt") ≡ refused not_markdown)
    × (vault_name (codes "/a/..") ≡ refused vault_root)
unfolding vault_name
vault_name_runs = (refl, refl, refl, refl, refl)
