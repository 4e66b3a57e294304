-- ===== src/Store/Qdrant/Deleted.antt =====
-- What deleting a document does to the stamps of the collection.
use attndb.Prelude.{
  ℕ, ◌≡◌, ◌≢◌, refl, ap, ◌∙◌, ◌⊎◌, Bool, true, false, ◌&&◌, Option, none, some, List, [], ◌∷◌,
  if◌then◌else◌, ◌==◌, Bool-cases, Option-cases, inl, inr,
}
use attndb.Prelude.Int.{ℤ}
use attndb.Prelude.Text.{Bytes, codes, bytes_eq, bytes_eq→eq}
use attndb.Prelude.Dict.{Dict, lookup, insert, lookup-insert}
use attndb.Core.Floats.{Floats}
use attndb.Store.Stamp.{DocStamp}
use attndb.Store.Memory.{int_eq}
use attndb.Store.Qdrant.{
  PayloadValue, string_value, integer_value, bool_value, other_value, Condition, match_keyword,
  match_bool, match_int, to_filter, conditions, payload_string, payload_int, string_of,
  stamp_points, Client, Qdrant, qdrant_delete, qdrant_stamps,
}

-- Whether a payload meets a condition, as the server decides it.
abbrev pub keyword_holds : Option PayloadValue → Bytes → Bool
keyword_holds none x = false
keyword_holds (some (string_value y)) x = bytes_eq y x
keyword_holds (some (integer_value y)) x = false
keyword_holds (some (bool_value y)) x = false
keyword_holds (some other_value) x = false

abbrev int_holds : Option PayloadValue → ℤ → Bool
int_holds none x = false
int_holds (some (string_value y)) x = false
int_holds (some (integer_value y)) x = int_eq y x
int_holds (some (bool_value y)) x = false
int_holds (some other_value) x = false

abbrev bool_holds : Option PayloadValue → ℕ → Bool
bool_holds none x = false
bool_holds (some (string_value y)) x = false
bool_holds (some (integer_value y)) x = false
bool_holds (some (bool_value y)) x = y == x
bool_holds (some other_value) x = false

unfoldable pub holds : Dict PayloadValue → Condition → Bool
unfolding lookup
holds p (match_keyword k x) = keyword_holds (lookup k p) x
holds p (match_int k x) = int_holds (lookup k p) x
holds p (match_bool k x) = bool_holds (lookup k p) x

unfoldable pub all_hold : Dict PayloadValue → List Condition → Bool
unfolding holds
all_hold p [] = true
all_hold p (c ∷ conds) = holds p c && all_hold p conds

-- The points that do not meet the conditions.
unfoldable pub kept_points : List Condition → List (Dict PayloadValue) → List (Dict PayloadValue)
unfolding all_hold
kept_points conds [] = []
kept_points conds (p ∷ points) =
    let rest = kept_points conds points in if all_hold p conds then rest else p ∷ rest

-- What the server documents: `points` are the payloads of a collection, none where there is no
-- collection.
pub record ClientLaws (F : Floats) (C : Client F) : Type 0 where
  pub points : C.State → Option (List (Dict PayloadValue))
  pub exists_some : (s : C.State) → C.collection_exists s ≡ some true → points s ≢ none
  pub exists_none : (s : C.State) → C.collection_exists s ≡ some false → points s ≡ none
  pub scrolled :
      (s : C.State) (ps : List (Dict PayloadValue)) → C.scroll_all s ≡ some ps → points s ≡ some ps
  pub deleted :
      (conds : List Condition) (s : C.State) (ps : List (Dict PayloadValue))
      → (C.delete_points (some conds) s).0 ≡ none
      → points s ≡ some ps
      → points (C.delete_points (some conds) s).1 ≡ some (kept_points conds ps)

abbrev doc_condition : Bytes → List Condition
doc_condition doc = match_keyword (codes "doc_id") doc ∷ []

keyword_string :
    (o : Option PayloadValue) (doc : Bytes) → keyword_holds o doc ≡ true → string_of o ≡ doc
unfolding string_of
keyword_string none doc h = absurd (cc)
keyword_string (some (string_value y)) doc h = bytes_eq→eq y doc h
keyword_string (some (integer_value y)) doc h = absurd (cc)
keyword_string (some (bool_value y)) doc h = absurd (cc)
keyword_string (some other_value) doc h = absurd (cc)

-- A point that is kept is of another document, or names none.
string_keyword :
    (o : Option PayloadValue) (doc : Bytes)
    → keyword_holds o doc ≡ false
    → bytes_eq (string_of o) [] ≡ false
    → bytes_eq (string_of o) doc ≡ false
unfolding string_of bytes_eq
string_keyword none doc h full = absurd (cc)
string_keyword (some (string_value y)) doc h full = h
string_keyword (some (integer_value y)) doc h full = absurd (cc)
string_keyword (some (bool_value y)) doc h full = absurd (cc)
string_keyword (some other_value) doc h full = absurd (cc)

abbrev stamp_at : Dict PayloadValue → DocStamp
stamp_at p = record { mtime = payload_int p (codes "mtime"); sha = payload_string p (codes "sha") }

and_true : (b : Bool) → (b && true) ≡ b
and_true true = refl
and_true false = refl

kept-none :
    (doc : Bytes) (ps : List (Dict PayloadValue)) (out : Dict DocStamp)
    → lookup doc (stamp_points (kept_points (doc_condition doc) ps) out) ≡ lookup doc out
unfolding kept_points all_hold holds stamp_points payload_string
kept-none doc [] out = refl
kept-none doc (p ∷ ps) out = elim (Bool-cases (keyword_holds (lookup (codes "doc_id") p) doc)) [
  | inl here ↦ rw (and_true, here) (kept-none doc ps out)
  | inr apart ↦
      rw (and_true, apart)
        (elim (Bool-cases (bytes_eq (string_of (lookup (codes "doc_id") p)) [])) [
          | inl unnamed ↦ rw (unnamed, if◌then◌else◌) (kept-none doc ps out)
          | inr full ↦
              rw (full, if◌then◌else◌)
                (kept-none doc ps (insert (string_of (lookup (codes "doc_id") p)) (stamp_at p) out)
                  ∙ rw (lookup-insert, string_keyword (lookup (codes "doc_id") p) doc apart full)
                      refl)
        ])
]

kept-other :
    (doc j : Bytes) (ps : List (Dict PayloadValue)) (out out' : Dict DocStamp)
    → bytes_eq doc j ≡ false
    → lookup j out ≡ lookup j out'
    → lookup j (stamp_points (kept_points (doc_condition doc) ps) out)
      ≡ lookup j (stamp_points ps out')
unfolding kept_points all_hold holds stamp_points payload_string
kept-other doc j [] out out' ne same = same
kept-other doc j (p ∷ ps) out out' ne same =
    let name = string_of (lookup (codes "doc_id") p) in
    elim (Bool-cases (bytes_eq name [])) [
      | inl unnamed ↦ elim (Bool-cases (keyword_holds (lookup (codes "doc_id") p) doc)) [
        | inl here ↦ rw (and_true, here, unnamed) (kept-other doc j ps out out' ne same)
        | inr apart ↦ rw (and_true, apart) (rw unnamed (kept-other doc j ps out out' ne same))
      ]
      | inr full ↦ elim (Bool-cases (keyword_holds (lookup (codes "doc_id") p) doc)) [
        | inl here ↦
            let owner : name ≡ doc = keyword_string (lookup (codes "doc_id") p) doc here in
            rw (and_true, here)
              (rw (full, if◌then◌else◌)
                (kept-other doc j ps out (insert name (stamp_at p) out') ne
                  (rw (lookup-insert, owner, ne) same)))
        | inr apart ↦
            rw (and_true, apart)
              (rw (full, if◌then◌else◌)
                (kept-other doc j ps (insert name (stamp_at p) out) (insert name (stamp_at p) out')
                  ne
                  (elim (Bool-cases (bytes_eq name j)) [
                    | inl own ↦ rw (lookup-insert, lookup-insert, own) refl
                    | inr different ↦ rw (lookup-insert, lookup-insert, different) same
                  ])))
      ]
    ]

exists_cases : (o : Option Bool) → (o ≡ none) ⊎ (o ≡ some true) ⊎ (o ≡ some false)
exists_cases none = inl refl
exists_cases (some true) = inr (inl refl)
exists_cases (some false) = inr (inr refl)

module _ (F : Floats) (C : Client F) (L : ClientLaws F C) where
  -- The stamps read are those of the collection's points; there are none without a collection.
  stamps_read :
      (q : Qdrant F C) (out : Dict DocStamp)
      → qdrant_stamps F C q ≡ some out
      → ((ps : List (Dict PayloadValue)) → L.points q.server ≡ some ps → out ≡ stamp_points ps [])
        × (L.points q.server ≡ none → out ≡ [])
  unfolding qdrant_stamps
  stamps_read q out e = elim (exists_cases (C.collection_exists q.server)) [
    | inl failed ↦ absurd (cc (rw (failed, qdrant_stamps) at (e)))
    | inr (inl there) ↦ elim (Option-cases (C.scroll_all q.server)) [
      | inl unread ↦ absurd (cc (rw (unread, qdrant_stamps) at (rw (there, qdrant_stamps) at (e))))
      | inr (ps', scroll) ↦
          let f = rw (scroll, qdrant_stamps) at (rw (there, qdrant_stamps) at (e)) in
          let now = L.scrolled q.server ps' scroll in
          (
            λ ps points.
                let same : ps' ≡ ps = cc in
                let o : out ≡ stamp_points ps' [] = cc in o ∙ ap (λ x. stamp_points x []) same,
            λ empty. absurd (cc),
          )
    ]
    | inr (inr gone) ↦
        let f = rw (gone, qdrant_stamps) at (e) in
        let empty = L.exists_none q.server gone in (λ ps points. absurd (cc), λ _. cc)
  ]

  -- If a delete succeeds, and the stamps can be read before and after it, then afterwards there is no
  -- stamp of the document, and every other document has the stamp that it had.
  pub qdrant_delete-stamps :
      (doc : Bytes) (q : Qdrant F C) (before after : Dict DocStamp)
      → (qdrant_delete F C doc q).0 ≡ none
      → qdrant_stamps F C q ≡ some before
      → qdrant_stamps F C (qdrant_delete F C doc q).1 ≡ some after
      → (lookup doc after ≡ none)
        × ((j : Bytes) → bytes_eq doc j ≡ false → lookup j after ≡ lookup j before)
  unfolding qdrant_delete to_filter conditions
  qdrant_delete-stamps doc q before after ok read read' =
      elim (exists_cases (C.collection_exists q.server)) [
        | inl failed ↦ absurd (cc (rw (failed, qdrant_delete) at (ok)))
        | inr (inr gone) ↦
            let empty = L.exists_none q.server gone in
            let b = (stamps_read q before read).1 empty in
            let a = (stamps_read q after (rw (gone, qdrant_delete) at (read'))).1 empty in
            (rw a (unfold lookup in refl), λ j ne. rw (a, b) refl)
        | inr (inl there) ↦ elim (Option-cases (L.points q.server)) [
          | inl none_there ↦ absurd (L.exists_some q.server there none_there)
          | inr (ps, points) ↦
              let conds = doc_condition doc in
              let ok' = rw (there, qdrant_delete) at (ok) in
              let points' = L.deleted conds q.server ps ok' points in
              let b = (stamps_read q before read).0 ps points in
              let a =
                (stamps_read _ after (rw (there, qdrant_delete) at (read'))).0
                  (kept_points conds ps) points' in
              (
                rw a (kept-none doc ps [] ∙ unfold lookup in refl),
                λ j ne. rw (a, b) (kept-other doc j ps [] [] ne refl),
              )
        ]
      ]
