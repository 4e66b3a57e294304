-- ===== src/Vault/Listing.antt =====
-- listDocs of cmd/attndb/serve.go: the walk through the vault, the order and the limit. Names are
-- given by their code points, a time of modification by a number; the text of the answer is left out.
pub mod Counted
pub mod Complete
use attndb.Prelude.{
  ℕ, Bool, true, false, not, ◌||◌, Option, none, some, List, [], ◌∷◌, ◌++◌, map, length, take,
  if◌then◌else◌, ltb, ◌==◌,
}
use attndb.Prelude.Int.{ℤ, pos, pos_part, ltb_ℤ}
use attndb.Prelude.Text.{bytes_eq}
use attndb.Prelude.Sort.{sort_by}
use attndb.Corpus.{is_indexable, is_hidden}
use attndb.Vault.Glob.{Runes, Item, match_string, vault_glob}

mutual
  -- A file with its size and time, none where `Info` fails; a folder; a folder that cannot be read.
  pub data Entry : Type 0 where
    file : Runes → Option (ℕ × ℕ) → Entry
    folder : Runes → Entries → Entry
    unreadable : Runes → Entry

  pub data Entries : Type 0 where
    nil : Entries
    cons : Entry → Entries → Entries

pub record Hit : Type 0 where
  pub rel : Runes
  pub size : ℕ
  pub mod_time : ℕ

-- match == nil || match.MatchString(p)
unfoldable pub wanted : Option (List Item) → Runes → Bool
wanted none p = true
wanted (some items) p = match_string items p

pub join_hits : Option (List Hit) → Option (List Hit) → Option (List Hit)
join_hits none b = none
join_hits (some a) none = none
join_hits (some a) (some b) = some (a ++ b)

one_hit : Runes → Option (ℕ × ℕ) → Option (List Hit)
one_hit p none = none
one_hit p (some (size, t)) = some (record { rel = p; size = size; mod_time = t } ∷ [])

-- `fs.WalkDir` with its callback, below the folder whose path and `/` are `dir`; none for an error.
unfoldable mutual
  unfolding join_hits one_hit

  pub list_entry : Option (List Item) → Runes → Entry → Option (List Hit)
  list_entry m dir (file name info) =
      if is_hidden name || not (is_indexable name) || not (wanted m (dir ++ name))
      then some []
      else one_hit (dir ++ name) info
  list_entry m dir (folder name es) =
      let below = list_entries m (dir ++ (name ++ b'/' ∷ [])) es in
      if is_hidden name then some [] else below
  list_entry m dir (unreadable name) = if is_hidden name then some [] else none

  pub list_entries : Option (List Item) → Runes → Entries → Option (List Hit)
  list_entries m dir nil = some []
  list_entries m dir (cons e es) = join_hits (list_entry m dir e) (list_entries m dir es)

pub record DocEntry : Type 0 where
  pub path : Runes
  pub bytes : ℕ
  pub modified : ℕ

pub record ListDocsInput : Type 0 where
  pub pattern : Runes
  pub limit : ℤ

pub record ListDocsOutput : Type 0 where
  pub docs : List DocEntry
  pub total : ℕ
  pub truncated : Bool

unfoldable pub trim_slash : Runes → Runes
trim_slash [] = []
trim_slash (c ∷ p) = if c == b'/' then p else c ∷ p

unfoldable pub compiled : Runes → Option (List Item)
unfolding trim_slash
compiled [] = none
compiled (c ∷ p) = some (vault_glob (trim_slash (c ∷ p)))

abbrev pub list_docs_default_limit : ℕ
list_docs_default_limit = 200

unfoldable pub list_limit : ℤ → ℕ
list_limit limit = if ltb_ℤ (pos 0) limit then pos_part limit else list_docs_default_limit

unfoldable pub doc_entry : Hit → DocEntry
doc_entry h = record { path = b'/' ∷ h.rel; bytes = h.size; modified = h.mod_time }

newer : Hit → Hit → Bool
newer a b = ltb b.mod_time a.mod_time

-- sort.Slice, and the cut.
unfoldable pub shown_docs : ℕ → List Hit → List Hit
unfolding newer
shown_docs limit hits =
    if ltb limit (length hits) then take limit (sort_by newer hits) else sort_by newer hits

-- The answer for the files found.
unfoldable pub listed : ℕ → List Hit → ListDocsOutput
unfolding shown_docs doc_entry
listed limit hits =
    let docs = map doc_entry (shown_docs limit hits) in
    record { docs = docs; total = length hits; truncated = ltb (length docs) (length hits) }

unfoldable pub list_docs : Entries → ListDocsInput → Option ListDocsOutput
unfolding compiled list_limit listed
list_docs root i = elim (list_entries (compiled i.pattern) [] root) [
  | none ↦ none
  | some hits ↦ some (listed (list_limit i.limit) hits)
]
