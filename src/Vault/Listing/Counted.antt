-- ===== src/Vault/Listing/Counted.antt =====
-- How many documents a listing finds, and in which order it shows them.
use attndb.Prelude.{
  ℕ, ◌≡◌, refl, inl, inr, Bool, true, false, not, ◌||◌, ◌&&◌, ◌+◌, length-append, take, Option,
  none, some, List, [], ◌∷◌, ◌++◌, map, length, if◌then◌else◌, ltb, arith, All, Bool-cases,
}
use attndb.Prelude.Sort.{sort_by}
use attndb.Prelude.Sort.Ordered.{Ordered, sort_by-Ordered, take-Ordered, map-Ordered}
use attndb.Corpus.{is_indexable, is_hidden}
use attndb.Vault.Glob.{Runes, Item}
use attndb.Vault.Listing.{
  Entry, Entries, file, folder, unreadable, nil, cons, Hit, wanted, join_hits, one_hit, list_entry,
  list_entries, DocEntry, doc_entry, newer, shown_docs,
}

pub join_parts :
    (a b : Option (List Hit)) (hits : List Hit)
    → join_hits a b ≡ some hits
    → (xs : List Hit) × (ys : List Hit) × (a ≡ some xs) × (b ≡ some ys) × (hits ≡ xs ++ ys)
unfolding join_hits
join_parts none b hits e = absurd (cc)
join_parts (some xs) none hits e = absurd (cc)
join_parts (some xs) (some ys) hits e = (xs, ys, refl, refl, cc)

-- How many of the visible files below `dir` the pattern matches.
unfoldable mutual
  pub matching_entry : Option (List Item) → Runes → Entry → ℕ
  matching_entry m dir (file name info) =
      if not (is_hidden name) && is_indexable name && wanted m (dir ++ name) then 1 else 0
  matching_entry m dir (folder name es) =
      let below = matching_files m (dir ++ (name ++ b'/' ∷ [])) es in
      if is_hidden name then 0 else below
  matching_entry m dir (unreadable name) = 0

  pub matching_files : Option (List Item) → Runes → Entries → ℕ
  matching_files m dir nil = 0
  matching_files m dir (cons e es) = matching_entry m dir e + matching_files m dir es

none_found : (hits : List Hit) → some [] ≡ some hits → length hits ≡ 0
none_found hits e = let none_there : hits ≡ [] = cc in rw none_there refl

one_found :
    (p : Runes) (info : Option (ℕ × ℕ)) (hits : List Hit)
    → one_hit p info ≡ some hits
    → length hits ≡ 1
unfolding one_hit
one_found p none hits e = absurd (cc)
one_found p (some (size, t)) hits e =
    let one : hits ≡ record { rel = p; size = size; mod_time = t } ∷ [] = cc in rw one refl

module _ (m : Option (List Item)) where
  file_counted :
      (p name : Runes) (info : Option (ℕ × ℕ)) (hits : List Hit) (a b c : Bool)
      → (if a || not b || not c then some [] else one_hit p info) ≡ some hits
      → length hits ≡ (if not a && b && c then 1 else 0)
  file_counted p name info hits true b c e = none_found hits e
  file_counted p name info hits false false c e = none_found hits e
  file_counted p name info hits false true false e = none_found hits e
  file_counted p name info hits false true true e = one_found p info hits e

  mutual
    unfolding list_entry list_entries matching_files

    entry_counted :
        (dir : Runes) (e : Entry) (hits : List Hit)
        → list_entry m dir e ≡ some hits
        → length hits ≡ matching_entry m dir e
    entry_counted dir (file name info) hits e =
        file_counted (dir ++ name) name info hits (is_hidden name) (is_indexable name)
          (wanted m (dir ++ name)) e
    entry_counted dir (folder name below) hits e = elim (Bool-cases (is_hidden name)) [
      | inl hidden ↦ rw hidden (none_found hits (rw (hidden, if◌then◌else◌) at (e)))
      | inr shown ↦ rw shown (
          entries_counted (dir ++ (name ++ b'/' ∷ [])) below hits
            (rw (shown, if◌then◌else◌) at (e)))
    ]
    entry_counted dir (unreadable name) hits e = elim (Bool-cases (is_hidden name)) [
      | inl hidden ↦ none_found hits (rw (hidden, if◌then◌else◌) at (e))
      | inr shown ↦ absurd (cc (rw (shown, if◌then◌else◌) at (e)))
    ]

    pub entries_counted :
        (dir : Runes) (es : Entries) (hits : List Hit)
        → list_entries m dir es ≡ some hits
        → length hits ≡ matching_files m dir es
    entries_counted dir nil hits e = none_found hits e
    entries_counted dir (cons x es) hits e =
        let (xs, ys, ex, ey, joined) =
          join_parts (list_entry m dir x) (list_entries m dir es) hits e in
        let a = entry_counted dir x xs ex in
        let b = entries_counted dir es ys ey in
        let n = length-append xs ys in rw joined (omega (arith, a, b, n))

abbrev pub later : DocEntry → DocEntry → Bool
later a b = ltb b.modified a.modified

pub newest_first :
    (limit : ℕ) (hits : List Hit) → Ordered later (map doc_entry (shown_docs limit hits))
unfolding shown_docs newer doc_entry
newest_first limit hits =
    let sorted =
      sort_by-Ordered newer (λ h. Unit) (λ a b p q e. ground arith)
        (λ a b c p q r e f. ground arith) hits (every hits) in
    elim (Bool-cases (ltb limit (length hits))) [
      | inl cut ↦ rw cut (
          map-Ordered newer later doc_entry (λ x y. refl) (take limit (sort_by newer hits))
            (take-Ordered newer limit (sort_by newer hits) sorted))
      | inr whole ↦
          rw whole (map-Ordered newer later doc_entry (λ x y. refl) (sort_by newer hits) sorted)
    ]
  where
    every : (hits : List Hit) → All (λ h. Unit) hits
    every [] = tt
    every (h ∷ hits) = (tt, every hits)
