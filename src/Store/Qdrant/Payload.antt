-- ===== src/Store/Qdrant/Payload.antt =====
-- What of a record comes back from the collection.
use attndb.Prelude.{◌≡◌, refl, ap, ◌∙◌, false, Option, none, some, [], ◌∷◌, Bool-cases, inl, inr}
use attndb.Prelude.Text.{Bytes, codes, bytes_eq}
use attndb.Prelude.Dict.{Dict, lookup, lookup-insert}
use attndb.Core.Types.{Value, str, int, int64, bool}
use attndb.Core.Floats.{Floats}
use attndb.Store.Pool.{Record}
use attndb.Store.Qdrant.{
  to_value, value_map, string_of, integer_of, payload_string, payload_int, flatten_payload,
  copy_payload, point_payload, to_point, to_scored,
}

-- An element of an optional value.
abbrev pub on_value : {A B : Type 0} → (A → B) → Option A → Option B
on_value f none = none
on_value f (some x) = some (f x)

pub value_map-lookup :
    (k : Bytes) (m : Dict Value) → lookup k (value_map m) ≡ on_value to_value (lookup k m)
unfolding value_map lookup
value_map-lookup k [] = refl
value_map-lookup k ((j, v) ∷ m) = elim (Bool-cases (bytes_eq j k)) [
  | inl e ↦ rw e refl
  | inr e ↦ rw e (value_map-lookup k m)
]

-- A number comes back as an int64.
unfoldable pub widened : Value → Value
widened (str x) = str x
widened (int x) = int64 x
widened (int64 x) = int64 x
widened (bool x) = bool x

flatten-value_map :
    (k : Bytes) (m : Dict Value)
    → lookup k (flatten_payload (value_map m)) ≡ on_value widened (lookup k m)
unfolding value_map to_value flatten_payload lookup widened
flatten-value_map k [] = refl
flatten-value_map k ((j, str x) ∷ m) = elim (Bool-cases (bytes_eq j k)) [
  | inl e ↦ rw e refl
  | inr e ↦ rw e (flatten-value_map k m)
]
flatten-value_map k ((j, int x) ∷ m) = elim (Bool-cases (bytes_eq j k)) [
  | inl e ↦ rw e refl
  | inr e ↦ rw e (flatten-value_map k m)
]
flatten-value_map k ((j, int64 x) ∷ m) = elim (Bool-cases (bytes_eq j k)) [
  | inl e ↦ rw e refl
  | inr e ↦ rw e (flatten-value_map k m)
]
flatten-value_map k ((j, bool x) ∷ m) = elim (Bool-cases (bytes_eq j k)) [
  | inl e ↦ rw e refl
  | inr e ↦ rw e (flatten-value_map k m)
]

module _ (F : Floats) where
  copy_payload-lookup :
      (k : Bytes) (payload : Dict Value) → lookup k (copy_payload F payload []) ≡ lookup k payload
  unfolding copy_payload lookup
  copy_payload-lookup k [] = refl
  copy_payload-lookup k ((j, v) ∷ payload) = elim (Bool-cases (bytes_eq j k)) [
    | inl e ↦ rw (lookup-insert, e) refl
    | inr e ↦ rw (lookup-insert, e) (copy_payload-lookup k payload)
  ]

  -- The keys of the span are added to the payload.
  pub point_payload-lookup :
      (k : Bytes) (r : Record F)
      → bytes_eq (codes "span_start") k ≡ false
      → bytes_eq (codes "span_end") k ≡ false
      → lookup k (point_payload F r) ≡ lookup k r.payload
  unfolding point_payload
  point_payload-lookup k r a b =
      rw (lookup-insert, b) (rw (lookup-insert, a) (copy_payload-lookup k r.payload))

  -- A record whose payload names its document comes back from the collection with the same document,
  -- the same span, and in its payload every entry but those under the keys of the span, a number as
  -- an int64.
  pub to_scored-to_point :
      (r : Record F) (score : F.F32)
      → lookup (codes "doc_id") r.payload ≡ some (str r.doc_id)
      → let back = (to_scored F (record { payload = (to_point F r).payload; score = score })).rec in
        (back.doc_id ≡ r.doc_id)
        × (back.span.start ≡ r.span.start)
        × (back.span.end ≡ r.span.end)
        × ((k : Bytes)
            → bytes_eq (codes "span_start") k ≡ false
            → bytes_eq (codes "span_end") k ≡ false
            → lookup k back.payload ≡ on_value widened (lookup k r.payload))
  unfolding to_scored to_point point_payload payload_string payload_int to_value string_of
      integer_of bytes_eq
  to_scored-to_point r score named = (
    rw (value_map-lookup, point_payload-lookup (codes "doc_id") r refl refl, named) refl,
    rw (value_map-lookup, lookup-insert, lookup-insert) refl,
    rw (value_map-lookup, lookup-insert) refl,
    λ k a b.
        flatten-value_map k (point_payload F r)
        ∙ ap (on_value widened) (point_payload-lookup k r a b),
  )
