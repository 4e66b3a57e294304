-- ===== src/Vault/Search.antt =====
-- The tool search_vault of cmd/attndb/serve.go, over a database of passes and the files of the
-- vault. The text of the answer is left out.
pub mod Answer
use attndb.Prelude.{ℕ, ◌+◌, ◌-◌, Option, none, some, List, [], ◌∷◌, map, length, if◌then◌else◌}
use attndb.Prelude.Int.{ℤ, pos, pos_part, ltb_ℤ}
use attndb.Prelude.Text.{Bytes}
use attndb.Core.Spans.{Span}
use attndb.Core.Types.{Query}
use attndb.Core.Floats.{Floats}
use attndb.Heat.Accumulate.{Ranging}
use attndb.Pass.Lane.{Pool}
use attndb.Db.Compose.{Settings, Passes, Hit, search}
use attndb.Command.Results.{gate, snippet}
use attndb.Vault.Disk.{Disk}
use attndb.Vault.Lines.{line_of, clamped}

module _ (F : Floats) (D : Disk) where
  open F use {F64, zero64, eq64, widen}

  pub record SearchInput : Type 0 where
    pub query : Bytes
    pub k : ℤ
    pub min_score : F64

  pub record SearchHit : Type 0 where
    pub path : Bytes
    pub start_line : ℕ
    pub end_line : ℕ
    pub score : F64
    pub text : Bytes

  -- The snippet and the range of lines; a file that cannot be read gives the line 0.
  unfoldable pub span_preview : Bytes → Span → D.State → Bytes × ℕ × ℕ
  unfolding snippet line_of clamped
  span_preview doc_id span s = elim (D.read_file doc_id s) [
    | none ↦ ([], 0, 0)
    | some b ↦
        (let sp = clamped span (length b) in (snippet b sp, line_of b sp.start, line_of b sp.end))
  ]

  unfoldable pub search_hit : D.State → Hit F → SearchHit
  unfolding span_preview
  search_hit s r =
      let (sn, start_line, end_line) = span_preview r.doc_id r.span s in
      record {
        path = b'/' ∷ r.doc_id;
        start_line = start_line;
        end_line = end_line;
        score = widen r.score;
        text = sn;
      }

  -- k <= 0 asks for 5 results.
  unfoldable pub wanted_results : ℤ → ℕ
  wanted_results k = if ltb_ℤ (pos 0) k then pos_part k else 5

  -- in.Min, the default of the server where it is 0
  unfoldable pub threshold : F64 → F64 → F64
  threshold def_min low = if eq64 low zero64 then def_min else low

  module _ (P : Pool F) where
    -- `def_min` is the server's default; none where the search fails.
    unfoldable pub search_vault :
        Ranging F → Settings F → F64 → SearchInput → Passes F P → D.State → Option (List SearchHit)
    unfolding wanted_results threshold gate search_hit
    search_vault order d def_min i passes s =
        elim (search F P order d (record { text = i.query; filters = [] }) (wanted_results i.k)
          passes) [
            | none ↦ none
            | some results ↦
                some (map (search_hit s) (gate F results (threshold def_min i.min_score)))
          ]
