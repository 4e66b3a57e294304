-- ===== src/Tests/Listings.antt =====
-- Listings of a small vault.
use attndb.Prelude.{◌≡◌, refl, true, none, some, [], ◌∷◌}
use attndb.Prelude.Int.{pos}
use attndb.Prelude.Text.{codes, has_prefix, has_suffix}
use attndb.Prelude.Sort.{sort_by}
use attndb.Corpus.{is_indexable, is_hidden}
use attndb.Vault.Glob.{match_string, vault_glob}
use attndb.Vault.Listing.{
  Entries, file, folder, unreadable, nil, cons, ListDocsInput, ListDocsOutput, wanted, list_entries,
  list_docs,
}
use attndb.Vault.Listing.Complete.{IsListing, list_docs-IsListing}

-- Two logs, a hidden folder that cannot be read, and a picture.
abbrev vault : Entries
vault = cons (unreadable (codes ".git")) (
    cons
      (folder (codes "daily")
        (cons (file (codes "a.md") (some (10, 5))) (cons (file (codes "b.md") (some (20, 7))) nil)))
      (cons (file (codes "top.md") (some (30, 9))) (cons (file (codes "x.png") none) nil)))

abbrev newest_log : ListDocsInput
newest_log = record { pattern = codes "/daily/**/*.md"; limit = pos 1 }

abbrev answer : ListDocsOutput
answer = record {
  docs = record { path = codes "/daily/b.md"; bytes = 20; modified = 7 } ∷ [];
  total = 2;
  truncated = true;
}

listing_run : list_docs vault newest_log ≡ some answer
unfolding list_docs list_entries wanted match_string vault_glob is_hidden is_indexable has_prefix
    has_suffix sort_by
listing_run = refl

list_docs-IsListing_example : IsListing vault newest_log answer
list_docs-IsListing_example = list_docs-IsListing vault newest_log answer listing_run
