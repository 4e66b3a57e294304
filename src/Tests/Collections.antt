-- ===== src/Tests/Collections.antt =====
-- The pool in a collection, on a server that keeps the payloads of its points in a list.
use attndb.Prelude.{◌≡◌, ◌≢◌, refl, Bool, true, false, Option, none, some, List, [], ◌∷◌, ◌++◌}
use attndb.Prelude.Int.{pos}
use attndb.Prelude.Text.{Bytes, codes, bytes_eq}
use attndb.Prelude.Dict.{Dict, lookup}
use attndb.Core.Types.{Value, str}
use attndb.Store.Pool.{Record}
use attndb.Store.Memory.{matches_filters}
use attndb.Store.Stamp.{DocStamp}
use attndb.Reconcile.Index.{Error}
use attndb.Store.Qdrant.{
  PayloadValue, string_value, Condition, Filter, conditions, Point, Client, Qdrant, to_point,
  to_scored, qdrant_delete, qdrant_stamps,
}
use attndb.Store.Qdrant.Payload.{on_value, widened, to_scored-to_point}
use attndb.Store.Qdrant.Deleted.{ClientLaws, kept_points, all_hold, qdrant_delete-stamps}
use attndb.Store.Qdrant.Filters.{conditions-matches_filters}
use attndb.Tests.Heats.{integers}

abbrev Collection : Type 0
Collection = Option (List (Dict PayloadValue))

abbrev is_there : Collection → Bool
is_there none = false
is_there (some ps) = true

payloads : List (Point integers) → List (Dict PayloadValue)
payloads [] = []
payloads (p ∷ points) = p.payload ∷ payloads points

abbrev delete_in : Filter → Collection → Error × Collection
delete_in none s = (some [], s)
delete_in (some conds) none = (some [], none)
delete_in (some conds) (some ps) = (none, some (kept_points conds ps))

abbrev upsert_in : List (Point integers) → Collection → Error × Collection
unfolding payloads
upsert_in points none = (some [], none)
upsert_in points (some ps) = (none, some (payloads points ++ ps))

abbrev server : Client integers
server = record {
  State = Collection;
  collection_exists = λ s. some (is_there s);
  create_collection = λ dim many s. (none, some []);
  upsert_points = upsert_in;
  delete_points = delete_in;
  scroll_all = λ s. s;
  query_points = λ q k f s. none;
}

there : (s : Collection) → some (is_there s) ≡ some true → s ≢ none
there none h e = absurd (cc)
there (some ps) h e = absurd (cc)

not_there : (s : Collection) → some (is_there s) ≡ some false → s ≡ none
not_there none h = refl
not_there (some ps) h = absurd (cc)

kept :
    (conds : List Condition) (s : Collection) (ps : List (Dict PayloadValue))
    → s ≡ some ps
    → (delete_in (some conds) s).1 ≡ some (kept_points conds ps)
kept conds none ps e = absurd (cc)
kept conds (some qs) ps e = cc

abbrev server-Laws : ClientLaws integers server
server-Laws = record {
  points = λ s. s;
  exists_some = there;
  exists_none = not_there;
  scrolled = λ s ps e. e;
  deleted = λ conds s ps ok e. kept conds s ps e;
}

abbrev payload_of : Bytes → Dict PayloadValue
payload_of doc = (codes "doc_id", string_value doc) ∷ (codes "sha", string_value (codes "1")) ∷ []

abbrev two_docs : Qdrant integers server
two_docs = record {
  server = some (payload_of (codes "a.md") ∷ payload_of (codes "b.md") ∷ []);
  created = true;
}

abbrev stamp : DocStamp
stamp = record { mtime = pos 0; sha = codes "1" }

abbrev both : Dict DocStamp
both = (codes "a.md", stamp) ∷ (codes "b.md", stamp) ∷ []

abbrev one_left : Dict DocStamp
one_left = (codes "b.md", stamp) ∷ []

stamps_run :
    (qdrant_stamps integers server two_docs ≡ some both)
    × ((qdrant_delete integers server (codes "a.md") two_docs).0 ≡ none)
    × (qdrant_stamps integers server (qdrant_delete integers server (codes "a.md") two_docs).1
        ≡ some one_left)
unfolding qdrant_stamps qdrant_delete kept_points
stamps_run = (refl, refl, refl)

qdrant_delete-stamps_example :
    (lookup (codes "a.md") one_left ≡ none)
    × ((j : Bytes) → bytes_eq (codes "a.md") j ≡ false → lookup j one_left ≡ lookup j both)
qdrant_delete-stamps_example =
    qdrant_delete-stamps integers server server-Laws (codes "a.md") two_docs both one_left
      stamps_run.1 stamps_run.0 stamps_run.2

abbrev stored : Record integers
stored = record {
  id = codes "para:a.md:3-9";
  doc_id = codes "a.md";
  span = record { start = 3; end = 9 };
  vector = some (pos 1 ∷ []);
  tokens = record { vecs = []; offsets = [] };
  payload = (codes "doc_id", str (codes "a.md")) ∷ (codes "path", str (codes "a.md")) ∷ [];
}

named : lookup (codes "doc_id") stored.payload ≡ some (str stored.doc_id)
unfolding lookup bytes_eq
named = refl

abbrev back : Record integers
back =
    (to_scored integers
      (record { payload = (to_point integers stored).payload; score = pos 1 })).rec

to_scored-to_point_example :
    (back.doc_id ≡ stored.doc_id)
    × (back.span.start ≡ stored.span.start)
    × (back.span.end ≡ stored.span.end)
    × ((k : Bytes)
        → bytes_eq (codes "span_start") k ≡ false
        → bytes_eq (codes "span_end") k ≡ false
        → lookup k back.payload ≡ on_value widened (lookup k stored.payload))
to_scored-to_point_example = to_scored-to_point integers stored (pos 1) named

abbrev by_path : Dict Value
by_path = (codes "path", str (codes "b.md")) ∷ []

conditions-matches_filters_example :
    all_hold (to_point integers stored).payload (conditions by_path)
    ≡ matches_filters stored.payload by_path
unfolding bytes_eq
conditions-matches_filters_example =
    conditions-matches_filters integers stored by_path ((refl, refl), tt)
