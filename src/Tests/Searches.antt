-- ===== src/Tests/Searches.antt =====
-- The pool and the composed passes over integer scores.
use attndb.Prelude.{◌≡◌, refl, none, some, List, [], ◌∷◌, ◌++◌}
use attndb.Prelude.Int.{pos}
use attndb.Prelude.Text.{codes}
use attndb.Prelude.Dict.{Dict}
use attndb.Core.Types.{str, Query}
use attndb.Store.Pool.{Record}
use attndb.Store.Memory.{delete, stamps}
use attndb.Chunk.Chunkers.{whole_doc}
use attndb.Heat.Normal.{min_max}
use attndb.Pass.Lane.{Pool, Lane, single, Candidate, pass_deposits}
use attndb.Db.Compose.{
  Settings, PassExplain, Hit, Passes, deposits_from, normalized, explain_pass, fuse, gather, search,
  explain,
}
use attndb.Db.Compose.Explained.{shown, explain-search}
use attndb.Tests.Heats.{integers}

abbrev pub rec : Record integers
rec = record {
  id = codes "doc:a.md:0-4";
  doc_id = codes "a.md";
  span = record { start = 0; end = 4 };
  vector = some (pos 1 ∷ []);
  tokens = record { vecs = []; offsets = [] };
  payload = (codes "sha", str (codes "1")) ∷ [];
}

abbrev pub recs : Dict (Record integers)
recs = (rec.id, rec) ∷ []

-- A pool with one record, which every search finds.
abbrev pub one_hit : Pool integers
one_hit = record {
  State = Dict (Record integers);
  upsert = λ rs s. (none, s);
  delete = λ id s. (none, delete integers id s);
  stamps = λ s. some (stamps integers s);
  search_single = λ v k f s. some (record { rec = rec; score = pos 7 } ∷ []);
  search_multi = λ v k f s. none;
}

abbrev pub lane : Lane integers
lane = record {
  name = codes "doc";
  weight = pos 2;
  chunker = whole_doc;
  encoder = single (λ texts. some []) (λ q. some (pos 1 ∷ []));
}

abbrev pub settings : Settings integers
settings = record { norm = min_max integers; pass_norm = []; recall_k = 50; peak_fraction = pos 1 }

abbrev pub passes : Passes integers one_hit
passes = (lane, recs) ∷ []

abbrev pub found_candidates : List (Candidate integers)
found_candidates =
    record { doc_id = codes "a.md"; span = rec.span; score = pos 7; source = codes "doc" } ∷ []

abbrev breakdown : List (PassExplain integers)
breakdown = explain_pass integers settings lane found_candidates ∷ []

abbrev ranked : List (Hit integers)
ranked =
    fuse integers (λ m. m) settings
      (deposits_from integers lane.weight found_candidates
          (normalized integers settings lane.name found_candidates)
        ++ [])
      5

abbrev question : Query
question = record { text = codes "q"; filters = [] }

explain_run :
    explain integers one_hit (λ m. m) settings question 5 passes ≡ some (breakdown, ranked)
unfolding explain gather pass_deposits
explain_run = refl

explain-search_example :
    (ranked ≡ fuse integers (λ m. m) settings (shown integers one_hit breakdown) 5)
    × (search integers one_hit (λ m. m) settings question 5 passes
        ≡ some (fuse integers (λ m. m) settings (shown integers one_hit breakdown) 5))
explain-search_example =
    explain-search integers one_hit (λ m. m) (λ m. m) settings question 5 passes breakdown ranked
      explain_run
