-- ===== src/Tests/Startup.antt =====
-- The daemon's index and its loop, with the stub encoders; tokens of a text.
use attndb.Prelude.{ℕ, ◌≡◌, refl, true, false, none, some, [], ◌∷◌, inr, arith, All}
use attndb.Prelude.Int.{pos}
use attndb.Prelude.Text.{Bytes, codes, bytes_eq}
use attndb.Core.Types.{str, Document, Chunk}
use attndb.Reconcile.Index.{Index}
use attndb.Reconcile.Passes.{Reconciler, reconcile_all, on_disk}
use attndb.Reconcile.Passes.Sync.{Distinct, Matches}
use attndb.Pass.Coords.{record_id}
use attndb.Pass.Coords.Unique.{record_id_injective}
use attndb.Serve.Assemble.{Tuning, MultiEncoder, SingleEncoder}
use attndb.Serve.Assemble.Documents.{OnePerText, whole, doc_record}
use attndb.Serve.Assemble.Refines.{Total}
use attndb.Serve.Assemble.Startup.{Shared, daemon, stamped, startup-Synced}
use attndb.Serve.Watch.{Loop, on_backstop, on_stale, on_done, here, after, backstop}
use attndb.Serve.Watch.Policy.{Watched, Reach-Watched}
use attndb.Serve.Watch.Skipped.{rest, done, stale, stale_skipped_lost}
use attndb.Chunk.Token.{tokenize}
use attndb.Encode.Stub.{token_vecs, stub_single, stub_multi}
use attndb.Encode.Stub.Tokens.{OfTokens, token_vecs-OfTokens, stub_single-OnePerText, stub-Total}
use attndb.Tests.Heats.{integers}

-- The stub encoders of dimension 4, over texts without capital letters.
abbrev tokens : MultiEncoder integers
tokens = stub_multi integers (λ s. s) 4

abbrev vectors : SingleEncoder integers
vectors = stub_single integers (λ s. s) 4

abbrev vectors-OnePerText : OnePerText integers vectors
vectors-OnePerText = stub_single-OnePerText integers (λ s. s) 4

abbrev weights : Tuning integers
weights = record { w_tok = pos 1; w_para = pos 1; w_doc = pos 1 }

vectors-Total : Total integers tokens weights vectors
vectors-Total = stub-Total integers (λ s. s) weights 4

abbrev note : Document
note = record { id = codes "a.md"; text = codes "new"; meta = (codes "sha", str (codes "2")) ∷ [] }

abbrev other : Document
other = record { id = codes "b.md"; text = codes "b"; meta = [] }

-- A document that the tree has no more.
abbrev old : Document
old = record { id = codes "c.md"; text = codes "c"; meta = [] }

abbrev left : Shared integers
left = record {
  pools = record {
    tok = [];
    para = [];
    doc = (record_id (codes "doc") (whole integers old), doc_record integers old (pos 1 ∷ [])) ∷ [];
  };
  starts = [];
  keyed = ((whole integers old, refl, refl), tt);
}

abbrev index : Index
index = daemon integers tokens weights vectors vectors vectors-OnePerText vectors-OnePerText

apart_run : Distinct (note ∷ other ∷ [])
unfolding on_disk bytes_eq
apart_run = (refl, (refl, tt))

abbrev started : Reconciler index
started = record { db = left; known = []; opened = false }

startup-Synced_example :
    ((reconcile_all index (some (note ∷ other ∷ [])) [] started).1 ≡ none)
    × All
        (λ d. Matches d (
          stamped integers tokens weights vectors vectors vectors-OnePerText vectors-OnePerText
            (reconcile_all index (some (note ∷ other ∷ [])) [] started).2.db
            d.id))
        (note ∷ other ∷ [])
    × ((j : Bytes)
        → on_disk j (note ∷ other ∷ []) ≡ false
        → stamped integers tokens weights vectors vectors vectors-OnePerText vectors-OnePerText
            (reconcile_all index (some (note ∷ other ∷ [])) [] started).2.db
            j
          ≡ none)
startup-Synced_example =
    startup-Synced integers tokens weights vectors vectors vectors-OnePerText vectors-OnePerText
      (note ∷ other ∷ []) [] left vectors-Total vectors-Total refl apart_run

-- An identifier with the separators in it.
abbrev odd : Chunk
odd = record {
  doc_id = codes "a:1-2.md";
  span = record { start = 10; end = 25 };
  text = [];
  heading_path = [];
}

abbrev odd_later : Chunk
odd_later = record {
  doc_id = codes "a:1-2.md";
  span = record { start = 10; end = 25 };
  text = codes "edited";
  heading_path = [];
}

record_id_injective_example :
    (odd.doc_id ≡ odd_later.doc_id)
    × (odd.span.start ≡ odd_later.span.start)
    × (odd.span.end ≡ odd_later.span.end)
unfolding record_id
record_id_injective_example = record_id_injective (codes "tok") odd odd_later refl

abbrev State : Type 0
State = Loop index ℕ 5

abbrev fresh : State
fresh = record {
  rec = started;
  dirty = 0;
  armed = false;
  in_flight = false;
  calib = 0;
  started = 0;
  ended = 0;
}

Reach-Watched_example :
    Watched index ℕ 5 (on_backstop index ℕ 5 (some (note ∷ other ∷ []), []) fresh)
Reach-Watched_example =
    Reach-Watched index ℕ 5 (after (here fresh) (backstop (some (note ∷ other ∷ []), []) fresh))
      (record { pending = inr (omega arith); in_balance = refl })

-- Three changes are pending while the first recalibration runs.
abbrev busy : State
busy = record {
  rec = started;
  dirty = 3;
  armed = false;
  in_flight = true;
  calib = 0;
  started = 1;
  ended = 0;
}

-- The tick comes too early; the recalibration ends, and the next tick does nothing.
abbrev later : State
later = on_stale index ℕ 5 (on_done index ℕ 5 (some 7) (on_stale index ℕ 5 busy))

stale_skipped_lost_example : (later.started ≡ busy.started) × (later.dirty ≡ 0)
stale_skipped_lost_example =
    stale_skipped_lost index ℕ 5 busy later (omega arith) refl (omega arith) (
      stale (on_stale index ℕ 5 busy) (on_done index ℕ 5 (some 7) (on_stale index ℕ 5 busy)) (
        done (some 7) (on_stale index ℕ 5 busy) (on_stale index ℕ 5 busy)
          (rest (on_stale index ℕ 5 busy))))

token_vecs-OfTokens_example :
    OfTokens integers
      (λ s. s)
      (codes "a  note")
      4
      (token_vecs integers (λ s. s) (codes "a  note") 4)
      (tokenize (codes "a  note"))
token_vecs-OfTokens_example = token_vecs-OfTokens integers (λ s. s) (codes "a  note") 4
