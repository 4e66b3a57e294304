-- ===== src/Store/Qdrant.antt =====
-- internal/store/qdrant.go: the pool in a collection of the Qdrant server. The client and the server
-- are given by an interface, with the laws that the proofs assume of them. Numbers of 64 bits are
-- those that fit; a span and a time of modification do.
pub mod Payload
pub mod Deleted
pub mod Filters
use attndb.Prelude.{
  ℕ, ◌+◌, ◌≡◌, Bool, true, false, Option, none, some, List, [], ◌∷◌, ◌++◌, length, if◌then◌else◌,
  ltb,
}
use attndb.Prelude.Int.{ℤ, pos, pos_part}
use attndb.Prelude.Text.{Bytes, codes, bytes_eq}
use attndb.Prelude.Fnv.{fnv64a}
use attndb.Prelude.Dict.{Dict, lookup, insert}
use attndb.Core.Spans.{Span}
use attndb.Core.Types.{Value, str, int, int64, bool}
use attndb.Core.Floats.{Floats}
use attndb.Core.Vec.{TokenVecs}
use attndb.Store.Stamp.{DocStamp}
use attndb.Store.Pool.{Record, Scored}
use attndb.Reconcile.Index.{Error}

-- qdrant.Value, with the kinds that the program writes; the others are one.
pub data PayloadValue : Type 0 where
  string_value : Bytes → PayloadValue
  integer_value : ℤ → PayloadValue
  bool_value : ℕ → PayloadValue
  other_value : PayloadValue

unfoldable pub hash_id : Bytes → ℕ
unfolding fnv64a
hash_id s = fnv64a s

-- Match conditions on a key.
pub data Condition : Type 0 where
  match_keyword : Bytes → Bytes → Condition
  match_bool : Bytes → ℕ → Condition
  match_int : Bytes → ℤ → Condition

-- nil is none.
abbrev pub Filter : Type 0
Filter = Option (List Condition)

-- The loop of toFilter.
unfoldable pub conditions : Dict Value → List Condition
conditions [] = []
conditions ((k, str x) ∷ filters) = match_keyword k x ∷ conditions filters
conditions ((k, bool x) ∷ filters) = match_bool k x ∷ conditions filters
conditions ((k, int x) ∷ filters) = match_int k x ∷ conditions filters
conditions ((k, int64 x) ∷ filters) = match_int k x ∷ conditions filters

unfoldable pub to_filter : Dict Value → Filter
unfolding conditions
to_filter [] = none
to_filter (f ∷ filters) = some (conditions (f ∷ filters))

-- qdrant.NewValueMap
unfoldable pub to_value : Value → PayloadValue
to_value (str x) = string_value x
to_value (int x) = integer_value x
to_value (int64 x) = integer_value x
to_value (bool x) = bool_value x

unfoldable pub value_map : Dict Value → Dict PayloadValue
unfolding to_value
value_map [] = []
value_map ((k, v) ∷ m) = (k, to_value v) ∷ value_map m

unfoldable pub string_of : Option PayloadValue → Bytes
string_of none = []
string_of (some (string_value x)) = x
string_of (some (integer_value x)) = []
string_of (some (bool_value x)) = []
string_of (some other_value) = []

unfoldable pub integer_of : Option PayloadValue → ℤ
integer_of none = pos 0
integer_of (some (string_value x)) = pos 0
integer_of (some (integer_value x)) = x
integer_of (some (bool_value x)) = pos 0
integer_of (some other_value) = pos 0

unfoldable pub payload_string : Dict PayloadValue → Bytes → Bytes
unfolding lookup string_of
payload_string p key = string_of (lookup key p)

unfoldable pub payload_int : Dict PayloadValue → Bytes → ℤ
unfolding lookup integer_of
payload_int p key = integer_of (lookup key p)

-- A value of another kind is left out.
unfoldable pub flatten_payload : Dict PayloadValue → Dict Value
flatten_payload [] = []
flatten_payload ((k, string_value x) ∷ p) = (k, str x) ∷ flatten_payload p
flatten_payload ((k, integer_value x) ∷ p) = (k, int64 x) ∷ flatten_payload p
flatten_payload ((k, bool_value x) ∷ p) = (k, bool x) ∷ flatten_payload p
flatten_payload ((k, other_value) ∷ p) = flatten_payload p

unfoldable pub stamp_points : List (Dict PayloadValue) → Dict DocStamp → Dict DocStamp
unfolding payload_string payload_int insert bytes_eq
stamp_points [] out = out
stamp_points (p ∷ points) out =
    let doc = payload_string p (codes "doc_id") in
    let skipped = stamp_points points out in
    let stamp : DocStamp = record {
      mtime = payload_int p (codes "mtime");
      sha = payload_string p (codes "sha");
    } in
    let taken = stamp_points points (insert doc stamp out) in
    if bytes_eq doc [] then skipped else taken

module _ (F : Floats) where
  open F use {F32}

  -- NewVectorsMulti, or NewVectorsDense, of which nil is an empty vector.
  pub data Vectors : Type 0 where
    multi_vectors : List (List F32) → Vectors
    dense_vector : List F32 → Vectors

  pub record Point : Type 0 where
    pub id : ℕ
    pub vectors : Vectors
    pub payload : Dict PayloadValue

  pub record Found : Type 0 where
    pub payload : Dict PayloadValue
    pub score : F32

  -- The client's calls for one collection. A query is none where it fails, so is a scroll.
  pub record Client : Type 1 where
    pub State : Type 0
    pub collection_exists : State → Option Bool
    -- the size, and whether it is a multivector collection
    pub create_collection : ℕ → Bool → State → Error × State
    pub upsert_points : List Point → State → Error × State
    pub delete_points : Filter → State → Error × State
    pub scroll_all : State → Option (List (Dict PayloadValue))
    pub query_points : Vectors → ℕ → Filter → State → Option (List Found)

  or_empty : Option (List F32) → List F32
  or_empty none = []
  or_empty (some v) = v

  unfoldable pub vectors_of : Record F → Vectors
  unfolding or_empty
  vectors_of r =
      if ltb 0 (length r.tokens.vecs)
      then multi_vectors r.tokens.vecs
      else dense_vector (or_empty r.vector)

  copy_payload : Dict Value → Dict Value → Dict Value
  unfolding insert
  copy_payload [] pl = pl
  copy_payload ((k, v) ∷ payload) pl = insert k v (copy_payload payload pl)

  unfoldable pub point_payload : Record F → Dict Value
  unfolding copy_payload insert
  point_payload r =
      insert (codes "span_end") (int64 (pos r.span.end))
        (insert (codes "span_start") (int64 (pos r.span.start)) (copy_payload r.payload []))

  unfoldable pub to_point : Record F → Point
  unfolding hash_id vectors_of point_payload value_map
  to_point r = record {
    id = hash_id r.id;
    vectors = vectors_of r;
    payload = value_map (point_payload r);
  }

  -- The record of a found point: no identifier and no vectors come back.
  unfoldable pub to_scored : Found → Scored F
  unfolding payload_string payload_int flatten_payload
  to_scored p = record {
    rec = record {
      id = [];
      doc_id = payload_string p.payload (codes "doc_id");
      span = record {
        start = pos_part (payload_int p.payload (codes "span_start"));
        end = pos_part (payload_int p.payload (codes "span_end"));
      };
      vector = none;
      tokens = record { vecs = []; offsets = [] };
      payload = flatten_payload p.payload;
    };
    score = p.score;
  }

  module _ (C : Client) where
    -- The state of the pool: the server, and whether the collection is known to be there.
    pub record Qdrant : Type 0 where
      pub server : C.State
      pub created : Bool

    -- The size and kind of a collection for the record, none where it has no vector at all.
    unfoldable pub shape_of : Record F → Option (ℕ × Bool)
    shape_of r = elim r.tokens.vecs [
      | v ∷ _ ↦ some (length v, true)
      | [] ↦ elim r.vector [ none ↦ none | some v ↦ some (length v, false) ]
    ]

    unfoldable pub create_if : Bool → ℕ × Bool → Qdrant → Error × Qdrant
    create_if true shape q = (none, record q { created = true })
    create_if false (dim, many) q =
        let (e, s) = C.create_collection dim many q.server in
        elim e [
          | some m ↦ (some m, record q { server = s })
          | none ↦ (none, record { server = s; created = true })
        ]

    unfoldable pub ensure : Record F → Qdrant → Error × Qdrant
    unfolding shape_of create_if
    ensure r q = if q.created then (none, q) else elim (shape_of r) [
      | none ↦ (some (codes "record has neither vector nor tokens"), q)
      | some shape ↦ elim (C.collection_exists q.server) [
        | none ↦ (some (codes "exists"), q)
        | some exists ↦ create_if exists shape q
      ]
    ]

    to_points : List (Record F) → List Point
    unfolding to_point
    to_points [] = []
    to_points (r ∷ recs) = to_point r ∷ to_points recs

    unfoldable pub qdrant_upsert : List (Record F) → Qdrant → Error × Qdrant
    unfolding ensure to_points
    qdrant_upsert [] q = (none, q)
    qdrant_upsert (r ∷ recs) q =
        let (e, q') = ensure r q in
        elim e [
          | some m ↦ (some m, q')
          | none ↦
              (let (e', s) = C.upsert_points (to_points (r ∷ recs)) q'.server in
                (e', record q' { server = s }))
        ]

    unfoldable pub qdrant_delete : Bytes → Qdrant → Error × Qdrant
    unfolding to_filter
    qdrant_delete doc_id q = elim (C.collection_exists q.server) [
      | none ↦ (some (codes "exists"), q)
      | some false ↦ (none, q)
      | some true ↦
          (let (e, s) = C.delete_points (to_filter ((codes "doc_id", str doc_id) ∷ [])) q.server in
            (e, record q { server = s }))
    ]

    unfoldable pub qdrant_stamps : Qdrant → Option (Dict DocStamp)
    unfolding stamp_points
    qdrant_stamps q = elim (C.collection_exists q.server) [
      | none ↦ none
      | some false ↦ some []
      | some true ↦ elim (C.scroll_all q.server) [
        | none ↦ none
        | some points ↦ some (stamp_points points [])
      ]
    ]

    scored_points : List Found → List (Scored F)
    unfolding to_scored
    scored_points [] = []
    scored_points (p ∷ points) = to_scored p ∷ scored_points points

    unfoldable pub qdrant_query : Vectors → ℕ → Dict Value → Qdrant → Option (List (Scored F))
    unfolding to_filter scored_points
    qdrant_query query k filters q = elim (C.query_points query k (to_filter filters) q.server) [
      | none ↦ none
      | some points ↦ some (scored_points points)
    ]
