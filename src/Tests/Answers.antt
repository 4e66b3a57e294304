-- ===== src/Tests/Answers.antt =====
-- search_vault over a vault with one file.
use attndb.Prelude.{arith, map, ◌++◌, ◌≤◌, ◌≡◌, refl, suc, ◌-◌, none, some, List, [], length, All}
use attndb.Prelude.Int.{pos}
use attndb.Prelude.Text.{Bytes, codes, slice}
use attndb.Core.Spans.{Span}
use attndb.Vault.Disk.{Disk}
use attndb.Vault.Lines.{clamped, read_window}
use attndb.Vault.Lines.Between.{Holds}
use attndb.Vault.Search.{SearchInput, SearchHit, span_preview, search_hit, search_vault}
use attndb.Vault.Search.Answer.{span_preview-Holds, Reaches, given, default, search_vault-Answer}
use attndb.Db.Compose.{Hit, deposits_from, normalized, fuse, gather, search}
use attndb.Pass.Lane.{pass_deposits}
use attndb.Command.Results.{gate}
use attndb.Tests.Heats.{integers}
use attndb.Tests.Searches.{one_hit, settings, passes, lane, found_candidates}

-- Every name is one file, which nothing changes.
abbrev one_file : Disk
one_file = record {
  State = Bytes;
  read_file = λ name s. some s;
  write_file = λ name b s. (some [], s);
  make_dirs = λ dir s. (none, s);
  remove = λ name s. (some [], s);
  open_file = λ name s. (none, s);
  seek_end = λ name s. some (length s);
  read_at = λ name k s. none;
  write_end = λ name b s. (some [], s);
}

abbrev poem : Bytes
poem = codes "one\ntwo\nthree\nfour\n"

-- The stored span ends behind the file.
abbrev stale : Span
stale = record { start = 5; end = 100 }

span_preview-Holds_example :
    Holds
      (read_window poem (pos (span_preview integers one_file (codes "a.md") stale poem).1) (
        pos (
          suc (span_preview integers one_file (codes "a.md") stale poem).2
          - (span_preview integers one_file (codes "a.md") stale poem).1))).content
      (slice poem (clamped stale (length poem)).start (clamped stale (length poem)).end)
span_preview-Holds_example =
    span_preview-Holds integers one_file (codes "a.md") poem stale poem refl (omega arith)

abbrev ask : SearchInput integers one_file
ask = record { query = codes "q"; k = pos 3; min_score = pos 0 }

-- What the database finds.
abbrev found : List (Hit integers)
found =
    fuse integers (λ m. m) settings
      (deposits_from integers lane.weight found_candidates
          (normalized integers settings lane.name found_candidates)
        ++ [])
      3

abbrev answer : List (SearchHit integers one_file)
answer = map (search_hit integers one_file poem) (gate integers found (pos 1))

answer_run :
    search_vault integers one_file one_hit (λ m. m) settings (pos 1) ask passes poem ≡ some answer
unfolding search_vault search gather pass_deposits
answer_run = refl

search_vault-Answer_example :
    (length answer ≤ 3)
    × All (λ h. Reaches integers one_file (pos 1) h.score × (h.start_line ≤ h.end_line)) answer
search_vault-Answer_example =
    search_vault-Answer integers one_file one_hit (λ m. m) settings (pos 1) ask passes poem answer 3
      (pos 1) (given 2) (default (pos 0) refl) answer_run
