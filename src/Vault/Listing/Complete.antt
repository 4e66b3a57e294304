-- ===== src/Vault/Listing/Complete.antt =====
-- Which documents a listing holds.
use attndb.Prelude.{
  ℕ, ◌≤◌, ◌<◌, ◌≡◌, refl, ap, ◌∙◌, ◌↔◌, inl, inr, Bool, true, false, not, ◌||◌, Option, none, some,
  List, [], ◌∷◌, ◌++◌, map, length, if◌then◌else◌, ltb, arith, All, All-append, All-map, Any,
  Any-append, Any-map, take-All, map-All, map-Any, Bool-cases, Option-cases, length-map,
  length-take, min,
}
use attndb.Prelude.Sort.{sort_by, sort_by-All, sort_by-Any, length-sort_by}
use attndb.Prelude.Sort.Ordered.{Ordered}
use attndb.Corpus.{is_indexable, is_hidden}
use attndb.Vault.Glob.{Runes, Item}
use attndb.Vault.Listing.{
  Entry, Entries, file, folder, unreadable, nil, cons, Hit, wanted, one_hit, list_entry,
  list_entries, ListDocsInput, ListDocsOutput, compiled, list_limit, doc_entry, newer, shown_docs,
  listed, list_docs,
}
use attndb.Vault.Listing.Counted.{join_parts, matching_files, entries_counted, later, newest_first}

-- `h` is a markdown file that is not hidden, in a folder that is not and stands in none.
pub data Visible : Runes → Entries → Hit → Type 0 where
  at_file :
      (dir name : Runes) (size t : ℕ) (es : Entries)
      → is_hidden name ≡ false
      → is_indexable name ≡ true
      → Visible dir
          (cons (file name (some (size, t))) es)
          (record { rel = dir ++ name; size = size; mod_time = t })
  within :
      {h : Hit} (dir name : Runes) (below es : Entries)
      → is_hidden name ≡ false
      → Visible (dir ++ (name ++ b'/' ∷ [])) below h
      → Visible dir (cons (folder name below) es) h
  behind :
      {h : Hit} (dir : Runes) (e : Entry) (es : Entries)
      → Visible dir es h
      → Visible dir (cons e es) h

nothing : (P : Hit → Type 0) (hits : List Hit) → some [] ≡ some hits → All P hits
nothing P hits e = let none_there : hits ≡ [] = cc in rw none_there tt

-- What the three tests let through.
let_through : (a b c : Bool) → (a || not b || not c) ≡ false → (a ≡ false) × (b ≡ true) × (c ≡ true)
let_through true b c e = absurd (cc)
let_through false true true e = (refl, refl, refl)
let_through false true false e = absurd (cc)
let_through false false c e = absurd (cc)

module _ (m : Option (List Item)) where
  -- What a listing of the entries below `dir` may hold.
  abbrev Good : Runes → Entries → Hit → Type 0
  Good dir es h = Visible dir es h × (wanted m h.rel ≡ true)

  file_there :
      (dir name : Runes) (info : Option (ℕ × ℕ)) (es : Entries) (hits : List Hit)
      → is_hidden name ≡ false
      → is_indexable name ≡ true
      → wanted m (dir ++ name) ≡ true
      → one_hit (dir ++ name) info ≡ some hits
      → All (Good dir (cons (file name info) es)) hits
  unfolding one_hit
  file_there dir name none es hits shown indexed fits e = absurd (cc)
  file_there dir name (some (size, t)) es hits shown indexed fits e =
      let one : hits ≡ record { rel = dir ++ name; size = size; mod_time = t } ∷ [] = cc in
      rw one ((at_file dir name size t es shown indexed, fits), tt)

  mutual
    unfolding list_entry list_entries one_hit

    entry_sound :
        (dir : Runes) (e : Entry) (es : Entries) (hits : List Hit)
        → list_entry m dir e ≡ some hits
        → All (Good dir (cons e es)) hits
    entry_sound dir (file name info) es hits e =
        elim (Bool-cases
          (is_hidden name || not (is_indexable name) || not (wanted m (dir ++ name)))) [
            | inl skipped ↦
                nothing (Good dir (cons (file name info) es)) hits
                  (rw (skipped, if◌then◌else◌) at (e))
            | inr kept ↦
                let (shown, indexed, fits) =
                  let_through (is_hidden name) (is_indexable name) (wanted m (dir ++ name)) kept in
                file_there dir name info es hits shown indexed fits
                  (rw (kept, if◌then◌else◌) at (e))
          ]
    entry_sound dir (folder name below) es hits e = elim (Bool-cases (is_hidden name)) [
      | inl hidden ↦
          nothing (Good dir (cons (folder name below) es)) hits (rw (hidden, if◌then◌else◌) at (e))
      | inr shown ↦
          All-map (λ h (v, w). (within dir name below es shown v, w)) hits
            (entries_sound (dir ++ (name ++ b'/' ∷ [])) below hits
              (rw (shown, if◌then◌else◌) at (e)))
    ]
    entry_sound dir (unreadable name) es hits e = elim (Bool-cases (is_hidden name)) [
      | inl hidden ↦
          nothing (Good dir (cons (unreadable name) es)) hits (rw (hidden, if◌then◌else◌) at (e))
      | inr shown ↦ absurd (cc (rw (shown, if◌then◌else◌) at (e)))
    ]

    entries_sound :
        (dir : Runes) (es : Entries) (hits : List Hit)
        → list_entries m dir es ≡ some hits
        → All (Good dir es) hits
    entries_sound dir nil hits e = nothing (Good dir nil) hits e
    entries_sound dir (cons x es) hits e =
        let (xs, ys, ex, ey, joined) =
          join_parts (list_entry m dir x) (list_entries m dir es) hits e in
        rw joined (
          All-append (Good dir (cons x es)) xs ys (entry_sound dir x es xs ex)
            (All-map (λ h (v, w). (behind dir x es v, w)) ys (entries_sound dir es ys ey)))

  -- A visible file that the pattern matches is found.
  found :
      (dir : Runes) (es : Entries) (h : Hit)
      → Visible dir es h
      → wanted m h.rel ≡ true
      → (hits : List Hit) → list_entries m dir es ≡ some hits
      → Any (λ x. x ≡ h) hits
  unfolding list_entries list_entry one_hit
  found dir _ h (at_file _ name size t es shown indexed) fits hits e =
      let (xs, ys, ex, ey, joined) =
        join_parts (list_entry m dir (file name (some (size, t)))) (list_entries m dir es) hits e in
      let one : xs ≡ h ∷ [] = cc (rw (shown, indexed, fits) at (ex)) in
      rw joined (rw one (inl refl))
  found dir _ h (within _ name below es shown v) fits hits e =
      let (xs, ys, ex, ey, joined) =
        join_parts (list_entry m dir (folder name below)) (list_entries m dir es) hits e in
      rw joined (
        Any-append (λ x. x ≡ h) xs ys
          (inl (found (dir ++ (name ++ b'/' ∷ [])) below h v fits xs (rw shown at (ex)))))
  found dir _ h (behind _ x es v) fits hits e =
      let (xs, ys, ex, ey, joined) =
        join_parts (list_entry m dir x) (list_entries m dir es) hits e in
      rw joined (Any-append (λ x. x ≡ h) xs ys (inr (found dir es h v fits ys ey)))

-- The documents of the answer: the visible files that the pattern matches, and where the answer is
-- not truncated all of them.
pub record IsListing (root : Entries) (i : ListDocsInput) (out : ListDocsOutput) : Type 0 where
  pub sound :
      All
        (λ d.
          (h : Hit) × (d ≡ doc_entry h)
          × Visible [] root h
          × (wanted (compiled i.pattern) h.rel ≡ true))
        out.docs
  pub complete :
      (h : Hit)
      → Visible [] root h
      → wanted (compiled i.pattern) h.rel ≡ true
      → out.truncated ≡ false
      → Any (λ d. d ≡ doc_entry h) out.docs
  pub total : out.total ≡ matching_files (compiled i.pattern) [] root
  pub ordered : Ordered later out.docs
  pub bounded : length out.docs ≤ list_limit i.limit
  pub counted : length out.docs ≡ min (list_limit i.limit) out.total
  pub told : (out.truncated ≡ true) ↔ (length out.docs < out.total)

shown_docs-All :
    (P : Hit → Type 0) (limit : ℕ) (hits : List Hit) → All P hits → All P (shown_docs limit hits)
unfolding shown_docs
shown_docs-All P limit hits h = elim (Bool-cases (ltb limit (length hits))) [
  | inl cut ↦
      rw (cut, if◌then◌else◌) (take-All P limit (sort_by newer hits) (sort_by-All newer P hits h))
  | inr whole ↦ rw (whole, if◌then◌else◌) (sort_by-All newer P hits h)
]

length-shown_docs :
    (limit : ℕ) (hits : List Hit) → length (shown_docs limit hits) ≡ min limit (length hits)
unfolding shown_docs
length-shown_docs limit hits = elim (Bool-cases (ltb limit (length hits))) [
  | inl cut ↦
      rw (cut, if◌then◌else◌) (length-take limit (sort_by newer hits) ∙ rw length-sort_by refl)
  | inr whole ↦ rw (whole, if◌then◌else◌) (length-sort_by newer hits ∙ ground arith)
]

-- Where nothing is cut off, everything is shown.
shown_docs-Any :
    (P : Hit → Type 0) (limit : ℕ) (hits : List Hit)
    → ltb (length (map doc_entry (shown_docs limit hits))) (length hits) ≡ false
    → Any P hits
    → Any P (shown_docs limit hits)
unfolding shown_docs
shown_docs-Any P limit hits whole h = elim (Bool-cases (ltb limit (length hits))) [
  | inl cut ↦
      let n = length-map (shown_docs limit hits) doc_entry in
      let k = length-shown_docs limit hits in absurd (ground (arith, n, k))
  | inr all ↦ rw (all, if◌then◌else◌) (sort_by-Any newer P hits h)
]

listed-IsListing :
    (root : Entries) (i : ListDocsInput) (hits : List Hit)
    → list_entries (compiled i.pattern) [] root ≡ some hits
    → IsListing root i (listed (list_limit i.limit) hits)
unfolding listed
listed-IsListing root i hits ok =
    let limit = list_limit i.limit in
    let n = length-map (shown_docs limit hits) doc_entry in
    let k = length-shown_docs limit hits in
    record {
      sound =
          map-All
            (λ d.
              (h : Hit) × (d ≡ doc_entry h)
              × Visible [] root h
              × (wanted (compiled i.pattern) h.rel ≡ true))
            doc_entry (shown_docs limit hits)
            (shown_docs-All
              (λ x.
                (h : Hit) × (doc_entry x ≡ doc_entry h)
                × Visible [] root h
                × (wanted (compiled i.pattern) h.rel ≡ true))
              limit hits
              (All-map (λ h (v, w). (h, refl, v, w)) hits
                (entries_sound (compiled i.pattern) [] root hits ok)));
      complete = λ h v fits whole.
          map-Any (λ d. d ≡ doc_entry h) doc_entry (shown_docs limit hits)
            (shown_docs-Any (λ x. doc_entry x ≡ doc_entry h) limit hits whole
              (Any-map (λ x e. ap doc_entry e) hits
                (found (compiled i.pattern) [] root h v fits hits ok)));
      total = entries_counted (compiled i.pattern) [] root hits ok;
      ordered = newest_first limit hits;
      bounded = omega (arith, n, k);
      counted = n ∙ k;
      told = (λ t. ground (arith, t), λ t. ground (arith, t));
    }

-- Where a listing gives an answer, its documents are visible markdown files whose paths the pattern
-- matches, the newest first and as many as the limit lets through; the total is the number of all
-- such files, and the answer holds each of them where it is not marked truncated, which it is
-- exactly where it has fewer documents than the total.
pub list_docs-IsListing :
    (root : Entries) (i : ListDocsInput) (out : ListDocsOutput)
    → list_docs root i ≡ some out
    → IsListing root i out
unfolding list_docs
list_docs-IsListing root i out e = elim (Option-cases (list_entries (compiled i.pattern) [] root)) [
  | inl failed ↦ absurd (cc (rw (failed, list_docs) at (e)))
  | inr (hits, ok) ↦
      let answer : out ≡ listed (list_limit i.limit) hits = cc (rw (ok, list_docs) at (e)) in
      rw answer (listed-IsListing root i hits ok)
]
