-- ===== src/Heat/Density.antt =====
-- `densitySegments` of internal/heat/heat.go: a sweep over the endpoints of the deposits.
pub mod Order
pub mod Sum
use attndb.Prelude.{
  ℕ, zero, suc, ◌+◌, ◌≤◌, ◌<◌, ◌≡◌, refl, Bool, true, false, ◌&&◌, Option, none, some, List, [],
  ◌∷◌, length, map, if◌then◌else◌, ltb, ◌==◌,
}
use attndb.Prelude.Text.{Bytes}
use attndb.Core.Spans.{Span}
use attndb.Prelude.Sort.{sort_by}
use attndb.Core.Floats.{Floats}

module _ (F : Floats) where
  open F use {F64, zero64, add64, neg64, lt64}

  pub record Deposit : Type 0 where
    pub doc_id : Bytes
    pub span : Span
    pub weight : F64

  pub record Segment : Type 0 where
    pub span : Span
    pub density : F64

  pub record Event : Type 0 where
    pub pos : ℕ
    pub delta : F64

  unfoldable pub events_of : List Deposit → List Event
  events_of [] = []
  events_of (d ∷ ds) =
      record { pos = d.span.start; delta = d.weight }
      ∷ record { pos = d.span.end; delta = neg64 d.weight }
      ∷ events_of ds

  -- Before an event: `prev` is the position of the last event, `none` at the first one, and `cur`
  -- the density behind it. The inner loop adds up the events of one position; the outer loop emits
  -- a segment where the position grows, so both are one pass over the events.
  unfoldable pub sweep : List Event → Option ℕ → F64 → List Segment
  sweep [] prev cur = []
  sweep (e ∷ events) none cur = sweep events (some e.pos) (add64 cur e.delta)
  sweep (e ∷ events) (some prev) cur =
      let rest = sweep events (some e.pos) (add64 cur e.delta) in
      if lt64 zero64 cur && ltb prev e.pos
      then record { span = record { start = prev; end = e.pos }; density = cur } ∷ rest
      else rest

  unfoldable pub density_segments : List Deposit → List Segment
  unfolding events_of sweep sort_by
  density_segments ds = sweep (sort_by (λ a b. ltb a.pos b.pos) (events_of ds)) none zero64
