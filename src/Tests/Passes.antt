-- ===== src/Tests/Passes.antt =====
-- The passes on an index that is a table of stamps.
use attndb.Prelude.{◌≡◌, refl, ap, false, if◌then◌else◌, none, some, List, [], ◌∷◌, inr}
use attndb.Prelude.Text.{Bytes, codes, bytes_eq, bytes_eq_refl}
use attndb.Prelude.Dict.{Dict, lookup, insert, remove, lookup-insert, lookup-remove}
use attndb.Core.Types.{str, Document}
use attndb.Store.Stamp.{DocStamp}
use attndb.Corpus.{is_indexable}
use attndb.Reconcile.Index.{Index, Laws, Error, stamp_of}
use attndb.Reconcile.Passes.{
  Reconciler, PathInfo, not_exist, regular, same_content, known_stamp, apply_upsert, apply_delete,
  deletes, on_disk, reconcile_path, reconcile_all, reconcile,
}
use attndb.Reconcile.Passes.Sync.{Distinct}
use attndb.Reconcile.Passes.Session.{Agrees}
use attndb.Reconcile.Passes.Full.{Synced, reconcile_all-Synced}
use attndb.Reconcile.Passes.Granular.{Untouched, reconcile-Agrees}
use attndb.Reconcile.Passes.Lost.{HasOld, full_passes, failed_upsert_lost}

ingest_all : List Document → Dict DocStamp → Dict DocStamp
unfolding insert stamp_of
ingest_all [] s = s
ingest_all (d ∷ docs) s = ingest_all docs (insert d.id (stamp_of d) s)

-- The table, with a factory of ingesters that works, or that fails.
abbrev table : Error → Index
table fault = record {
  State = Dict DocStamp;
  delete = λ id s. (none, remove id s);
  ingest = λ docs s. (none, ingest_all docs s);
  session_ingest = λ docs s. (none, ingest_all docs s);
  new_ingester = some (λ s. (fault, s));
  close = λ s. s;
  stamps = λ s. some s;
}

ingest_all-lookup :
    (d : Document) (j : Bytes) (s : Dict DocStamp)
    → lookup j (ingest_all (d ∷ []) s) ≡ (if bytes_eq d.id j then some (stamp_of d) else lookup j s)
unfolding ingest_all
ingest_all-lookup d j s = lookup-insert d.id j (stamp_of d) s

some_injective : (a b : Dict DocStamp) → some b ≡ some a → a ≡ b
some_injective a b e = cc

factory_keeps :
    (fault : Error) (f : Dict DocStamp → Error × Dict DocStamp) (j : Bytes) (s : Dict DocStamp)
    → (table fault).new_ingester ≡ some f
    → lookup j (f s).1 ≡ lookup j s
factory_keeps fault f j s e =
    let same : f ≡ (λ t. (fault, t)) = cc in
    ap (λ (g : Dict DocStamp → Error × Dict DocStamp). lookup j (g s).1) same

abbrev table-Laws : (fault : Error) → Laws (table fault)
table-Laws fault = record {
  view = λ s j. lookup j s;
  delete_self = λ id s ok. rw (lookup-remove, bytes_eq_refl) refl;
  delete_other = λ id j s ne. rw (lookup-remove, ne) refl;
  ingest_self = λ d s gone ok. rw (ingest_all-lookup, bytes_eq_refl) refl;
  ingest_other = λ d j s ne. rw (ingest_all-lookup, ne) refl;
  session_self = λ d s gone ok. rw (ingest_all-lookup, bytes_eq_refl) refl;
  session_other = λ d j s ne. rw (ingest_all-lookup, ne) refl;
  opened = factory_keeps fault;
  closed = λ j s. refl;
  read_back = λ s idx j e. ap (λ (t : Dict DocStamp). lookup j t) (some_injective idx s e);
}

abbrev note : Document
note = record { id = codes "a.md"; text = codes "old"; meta = (codes "sha", str (codes "1")) ∷ [] }

abbrev changed : Document
changed = record {
  id = codes "a.md";
  text = codes "new";
  meta = (codes "sha", str (codes "2")) ∷ [];
}

abbrev other : Document
other = record { id = codes "b.md"; text = codes "b"; meta = [] }

abbrev indexed : Dict DocStamp
indexed = (codes "a.md", stamp_of note) ∷ (codes "c.md", stamp_of note) ∷ []

-- The daemon starts with a cold cache.
abbrev cold : Reconciler (table none)
cold = record { db = indexed; known = []; opened = false }

abbrev warm : (fault : Error) → Reconciler (table fault)
warm fault = record { db = indexed; known = indexed; opened = false }

warm-Agrees : (fault : Error) → Agrees (table fault) (table-Laws fault) (warm fault)
warm-Agrees fault = record { at = λ j. refl }

cold_run : (reconcile_all (table none) (some (changed ∷ other ∷ [])) [] cold).1 ≡ none
unfolding reconcile_all same_content known_stamp stamp_of apply_upsert deletes apply_delete
cold_run = refl

apart_run : Distinct (changed ∷ other ∷ [])
unfolding on_disk bytes_eq
apart_run = (refl, (refl, tt))

reconcile_all-Synced_example :
    Synced
      (table none)
      (table-Laws none)
      (changed ∷ other ∷ [])
      (reconcile_all (table none) (some (changed ∷ other ∷ [])) [] cold).2
reconcile_all-Synced_example =
    reconcile_all-Synced (table none) (table-Laws none) (changed ∷ other ∷ []) [] cold
      (inr (refl, (indexed, refl))) apart_run cold_run

abbrev batch : List (Bytes × PathInfo)
batch = (codes "a.md", regular (codes "a.md") [] (some changed)) ∷ (codes "c.md", not_exist) ∷ []

batch_run : (reconcile (table none) batch (warm none)).1 ≡ none
unfolding reconcile same_content known_stamp stamp_of reconcile_path is_indexable apply_upsert
    apply_delete
batch_run = refl

reconcile-Agrees_example :
    Agrees (table none) (table-Laws none) (reconcile (table none) batch (warm none)).2
    × ((j : Bytes)
        → Untouched (table none) (table-Laws none) j batch
        → lookup j (reconcile (table none) batch (warm none)).2.db ≡ lookup j indexed)
reconcile-Agrees_example =
    reconcile-Agrees (table none) (table-Laws none) batch (warm none) (warm-Agrees none)
      (refl, (tt, tt)) batch_run

abbrev broken : Index
broken = table (some (codes "no encoder"))

abbrev broken-Laws : Laws broken
broken-Laws = table-Laws (some (codes "no encoder"))

abbrev before : Reconciler broken
before = warm (some (codes "no encoder"))

-- The upsert of the changed file fails, as no ingester can be built.
abbrev one_change : List (Bytes × PathInfo)
one_change = (codes "a.md", regular (codes "a.md") [] (some changed)) ∷ []

failed_run :
    ((reconcile broken one_change before).1 ≡ some (codes "no encoder"))
    × (lookup (codes "a.md") (reconcile broken one_change before).2.db ≡ none)
    × (lookup (codes "a.md") before.known ≡ some (stamp_of note))
unfolding reconcile reconcile_path apply_upsert same_content known_stamp stamp_of remove
    is_indexable
failed_run = (refl, refl, refl)

-- The file has its old content again.
old_tree : HasOld broken broken-Laws (codes "a.md") (stamp_of note) (note ∷ other ∷ [])
unfolding on_disk same_content stamp_of bytes_eq
old_tree = (refl, (λ e. refl, (λ e. cc e, tt)))

failed_upsert_lost_example :
    lookup
      (codes "a.md")
      (full_passes broken broken-Laws
        (codes "a.md")
        (stamp_of note)
        ((note ∷ other ∷ []) ∷ (note ∷ other ∷ []) ∷ [])
        (reconcile broken one_change before).2).db
    ≡ none
failed_upsert_lost_example =
    failed_upsert_lost broken broken-Laws (codes "a.md") (stamp_of note) (codes "a.md") []
      (codes "no encoder") changed ((note ∷ other ∷ []) ∷ (note ∷ other ∷ []) ∷ []) before
      failed_run.2 failed_run.0 failed_run.1 (old_tree, (old_tree, tt))
