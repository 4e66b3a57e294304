-- ===== src/Pass/Coords.antt =====
-- The shared helpers of internal/pass/pass.go: the encoded text of a chunk, token offsets in the
-- document, the span of the matched tokens, and what a record is stored under.
pub mod Unique
pub mod Stamped
use attndb.Prelude.{
  ℕ, zero, suc, ◌+◌, ◌-◌, ◌/◌, ◌%◌, ◌≡◌, refl, Option, none, some, List, [], ◌∷◌, ◌++◌, length,
  get_elem?, if◌then◌else◌, ltb, min, max,
}
use attndb.Prelude.Text.{Bytes, codes, join}
use attndb.Prelude.Dict.{Dict, insert}
use attndb.Core.Spans.{Span}
use attndb.Core.Types.{Value, str, Document, Chunk}
use attndb.Core.Floats.{Floats}
use attndb.Core.Vec.{TokenVecs}

-- " › " in UTF-8
abbrev pub trail_separator : Bytes
trail_separator = b' ' ∷ 0xe2 ∷ 0x80 ∷ 0xba ∷ b' ' ∷ []

unfoldable pub encode_text : Chunk → Bytes
unfolding join
encode_text c = elim c.heading_path [
  | [] ↦ c.text
  | h ∷ path ↦ join trail_separator (h ∷ path) ++ (codes "\n\n" ++ c.text)
]

-- The decimal digits of a number, for %d; the fuel is the number itself and one more.
decimal_from : ℕ → ℕ → Bytes → Bytes
decimal_from zero n digits = digits
decimal_from (suc fuel) n digits =
    let more = decimal_from fuel (n / 10) ((b'0' + n % 10) ∷ digits) in
    if ltb n 10 then (b'0' + n) ∷ digits else more

unfoldable pub decimal : ℕ → Bytes
unfolding decimal_from
decimal n = decimal_from (suc n) n []

unfoldable pub record_id : Bytes → Chunk → Bytes
record_id pass c =
    pass
    ++ (codes ":"
        ++ (c.doc_id ++ (codes ":" ++ (decimal c.span.start ++ (codes "-" ++ decimal c.span.end)))))

-- Go adds the entries in some order; a map has one entry for a key, and here the first one counts.
copy_meta : Dict Value → Dict Value → Dict Value
unfolding insert
copy_meta [] m = m
copy_meta ((k, v) ∷ meta) m = insert k v (copy_meta meta m)

unfoldable pub payload : Document → Chunk → Dict Value
unfolding copy_meta insert join
payload d c =
    let m = copy_meta d.meta ((codes "doc_id", str d.id) ∷ []) in
    elim c.heading_path [
      | [] ↦ m
      | h ∷ path ↦ insert (codes "heading") (str (join trail_separator (h ∷ path))) m
    ]

-- The span of the matched tokens so far; none for the start -1 and the end -1.
unfoldable pub grow_span : Option Span → Span → Option Span
grow_span none o = some o
grow_span (some s) o = some (record { start = min s.start o.start; end = max s.end o.end })

unfoldable pub matched_from : List Span → List (Option ℕ) → Option Span → Option Span
unfolding grow_span
matched_from offsets [] found = found
matched_from offsets (none ∷ matched) found = matched_from offsets matched found
matched_from offsets (some j ∷ matched) found = elim (get_elem? offsets j) [
  | none ↦ matched_from offsets matched found
  | some o ↦ matched_from offsets matched (grow_span found o)
]

module _ (F : Floats) where
  open F use {F32}

  add_token : List F32 → Span → TokenVecs F → TokenVecs F
  add_token v o tv = record { vecs = v ∷ tv.vecs; offsets = o ∷ tv.offsets }

  -- A token outside the prefix ends behind it, so that no difference is negative.
  unfoldable pub shift_tokens : ℕ → ℕ → List (List F32) → List Span → TokenVecs F
  unfolding add_token
  shift_tokens prefix start [] offsets = record { vecs = []; offsets = [] }
  shift_tokens prefix start (v ∷ vecs) [] = record { vecs = []; offsets = [] }
  shift_tokens prefix start (v ∷ vecs) (off ∷ offsets) =
      let rest = shift_tokens prefix start vecs offsets in
      if ltb off.start prefix
      then rest
      else add_token v
          (record { start = off.start + start - prefix; end = off.end + start - prefix }) rest

  -- There is one vector for each offset. `prefix` is 0 where the difference is negative.
  unfoldable pub to_doc_coords : TokenVecs F → Chunk → Bytes → TokenVecs F
  unfolding shift_tokens
  to_doc_coords tv c enc_text =
      shift_tokens (length enc_text - length c.text) c.span.start tv.vecs tv.offsets

  -- The empty span where no token matched.
  unfoldable pub matched_span : TokenVecs F → List (Option ℕ) → Span
  unfolding matched_from
  matched_span d matched = elim (matched_from d.offsets matched none) [
    | none ↦ record { start = 0; end = 0 }
    | some s ↦ s
  ]

record_id_runs :
    record_id (codes "tok") (record {
      doc_id = codes "a.md";
      span = record { start = 7; end = 120 };
      text = [];
      heading_path = [];
    })
    ≡ codes "tok:a.md:7-120"
unfolding record_id decimal
record_id_runs = refl
