-- ===== src/Core/Types.antt =====
-- internal/core/types.go: the coordinates and the data that all parts share.
-- A position is an offset into a text that is in memory, so it is a plain number; a length, which
-- the code computes by subtraction, is an integer. Texts and identifiers are byte strings.
use attndb.Prelude.{ℕ, List}
use attndb.Prelude.Int.{ℤ}
use attndb.Prelude.Text.{Bytes}
use attndb.Prelude.Dict.{Dict}
use attndb.Core.Spans.{Span}

-- The values of a `map[string]any` that the program stores or filters by.

pub data Value : Type 0 where
  str : Bytes → Value
  int : ℤ → Value
  int64 : ℤ → Value
  bool : ℕ → Value

pub record Document : Type 0 where
  pub id : Bytes
  pub text : Bytes
  pub meta : Dict Value

pub record Chunk : Type 0 where
  pub doc_id : Bytes
  pub span : Span
  pub text : Bytes
  pub heading_path : List Bytes

pub record Query : Type 0 where
  pub text : Bytes
  pub filters : Dict Value
