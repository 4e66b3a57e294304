-- ===== src/Corpus.antt =====
-- internal/corpus/corpus.go: which files of a tree are documents. The file system is a tree of
-- entries with, for each file, what reading it gives.
use attndb.Prelude.{Bool, Option, none, some, List, [], ◌∷◌, ◌++◌, if◌then◌else◌}
use attndb.Prelude.Text.{Bytes, codes, has_prefix, has_suffix}
use attndb.Core.Types.{Document}

unfoldable pub is_indexable : Bytes → Bool
unfolding has_suffix
is_indexable name = has_suffix name (codes ".md")

-- strings.HasPrefix(d.Name(), ".")
unfoldable pub is_hidden : Bytes → Bool
unfolding has_prefix
is_hidden name = has_prefix name (codes ".")

mutual
  pub data Entry : Type 0 where
    file : Bytes → Option Document → Entry
    dir : Bytes → Entries → Entry

  pub data Entries : Type 0 where
    nil : Entries
    cons : Entry → Entries → Entries

append_docs : Option (List Document) → Option (List Document) → Option (List Document)
append_docs none b = none
append_docs (some a) none = none
append_docs (some a) (some b) = some (a ++ b)

-- A file that cannot be read ends the walk with an error, `none`.
one_doc : Option Document → Option (List Document)
one_doc none = none
one_doc (some d) = some (d ∷ [])

-- `filepath.WalkDir` with the callback of `LoadDir`, below the root.
unfoldable mutual
  unfolding is_indexable is_hidden append_docs one_doc

  pub walk : Entry → Option (List Document)
  walk (file name doc) = let read = one_doc doc in if is_indexable name then read else some []
  walk (dir name es) = let below = walk_all es in if is_hidden name then some [] else below

  pub walk_all : Entries → Option (List Document)
  walk_all nil = some []
  walk_all (cons e es) = append_docs (walk e) (walk_all es)

-- The root itself is never skipped.
unfoldable pub load_dir : Entries → Option (List Document)
unfolding walk_all
load_dir root = walk_all root
