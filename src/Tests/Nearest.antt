-- ===== src/Tests/Nearest.antt =====
-- Searches of a pool of two records for the one best match, over integer scores.
use attndb.Prelude.{◌≡◌, refl, true, false, some, [], ◌∷◌, All, arith}
use attndb.Prelude.Int.{ℤ, pos, ltb_ℤ, ◌+ℤ◌, ◌*ℤ◌}
use attndb.Prelude.Text.{Bytes, codes, bytes_eq}
use attndb.Prelude.Dict.{Dict, lookup}
use attndb.Core.Vec.{cosine}
use attndb.Store.Pool.{Record}
use attndb.Store.Memory.{matches_filters, single_score, search_single}
use attndb.Store.Memory.Nearest.{IsHit, IsCounted, search_single-Nearest}
use attndb.Tests.Heats.{integers}

abbrev entry : Bytes → ℤ → Record integers
entry id x = record {
  id = id;
  doc_id = codes "a.md";
  span = record { start = 0; end = 4 };
  vector = some (x ∷ []);
  tokens = record { vecs = (x ∷ []) ∷ []; offsets = [] };
  payload = [];
}

abbrev stored : Dict (Record integers)
stored = (codes "1", entry (codes "1") (pos 5)) ∷ (codes "2", entry (codes "2") (pos 3)) ∷ []

abbrev IsInteger : ℤ → Type 0
IsInteger x = Unit

ltb-asym : (a b : ℤ) → IsInteger a → IsInteger b → ltb_ℤ a b ≡ true → ltb_ℤ b a ≡ false
ltb-asym a b _ _ h = ground arith

ltb-weak :
    (a b c : ℤ)
    → IsInteger a
    → IsInteger b
    → IsInteger c
    → ltb_ℤ a b ≡ false
    → ltb_ℤ b c ≡ false
    → ltb_ℤ a c ≡ false
ltb-weak a b c _ _ _ h h' = ground arith

second_at : lookup (codes "2") stored ≡ some (entry (codes "2") (pos 3))
unfolding lookup bytes_eq
second_at = refl

second_matches : matches_filters [] [] ≡ true
unfolding matches_filters
second_matches = refl

second_scored : single_score integers (pos 1 ∷ []) (entry (codes "2") (pos 3)) ≡ some (pos 3)
unfolding single_score cosine ◌+ℤ◌ ◌*ℤ◌
second_scored = refl

search_single-Nearest_example :
    All
      (IsHit integers (single_score integers (pos 1 ∷ [])) [] stored)
      (search_single integers (pos 1 ∷ []) 1 [] stored)
    × IsCounted integers 1
        (entry (codes "2") (pos 3))
        (pos 3)
        (search_single integers (pos 1 ∷ []) 1 [] stored)
search_single-Nearest_example =
    search_single-Nearest integers IsInteger ltb-asym ltb-weak 1 [] stored (codes "2")
      (entry (codes "2") (pos 3)) (pos 3) second_at second_matches (pos 1 ∷ [])
      (λ s e. tt, (λ s e. tt, tt)) second_scored
