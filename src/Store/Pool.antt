-- ===== src/Store/Pool.antt =====
-- `Record` and `Scored` of internal/store/pool.go. A nil vector is none.
use attndb.Prelude.{Option, List}
use attndb.Prelude.Text.{Bytes}
use attndb.Prelude.Dict.{Dict}
use attndb.Core.Spans.{Span}
use attndb.Core.Types.{Value}
use attndb.Core.Floats.{Floats}
use attndb.Core.Vec.{TokenVecs}

module _ (F : Floats) where
  open F use {F32}

  pub record Record : Type 0 where
    pub id : Bytes
    pub doc_id : Bytes
    pub span : Span
    pub vector : Option (List F32)
    pub tokens : TokenVecs F
    pub payload : Dict Value

  pub record Scored : Type 0 where
    pub rec : Record
    pub score : F32
