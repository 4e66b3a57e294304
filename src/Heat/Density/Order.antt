-- ===== src/Heat/Density/Order.antt =====
-- The segments are in order and apart, and each is dense and lies between ends of deposits.
use attndb.Prelude.{
  ℕ, ◌≤◌, ◌<◌, ◌≡◌, refl, Bool, true, ◌&&◌, ◌⊎◌, Any, none, some, List, [], ◌∷◌, map, ltb, arith,
  Bool-cases, inl, inr, All,
}
use attndb.Prelude.Sort.{insert_by, sort_by, sort_by-All}
use attndb.Core.Spans.{InOrder, InOrder-weaken}
use attndb.Core.Floats.{Floats}
use attndb.Heat.Density.{Deposit, Segment, Event, events_of, sweep, density_segments}

module _ (F : Floats) where
  open F use {F64, zero64, add64, neg64, lt64}

  abbrev pub Ascending : ℕ → List (Event F) → Type 0
  Ascending q [] = Unit
  Ascending q (e ∷ es) = (q ≤ e.pos) × Ascending e.pos es

  abbrev pub before : Event F → Event F → Bool
  before a b = ltb a.pos b.pos

  insert-Ascending :
      (q : ℕ) (e : Event F) (es : List (Event F))
      → q ≤ e.pos
      → Ascending q es
      → Ascending q (insert_by before e es)
  unfolding insert_by
  insert-Ascending q e [] h o = (h, tt)
  insert-Ascending q e (x ∷ es) h o = elim (Bool-cases (ltb x.pos e.pos)) [
    | inl l ↦ rw l (o.0, insert-Ascending x.pos e es (ground arith) o.1)
    | inr l ↦ rw l (h, (ground arith, o.1))
  ]

  pub sort-Ascending : (es : List (Event F)) → Ascending 0 (sort_by before es)
  unfolding sort_by
  sort-Ascending [] = tt
  sort-Ascending (e ∷ es) =
      insert-Ascending 0 e (sort_by before es) (omega arith) (sort-Ascending es)

  -- From any event on, the segments tile the axis from left to right.
  sweep-InOrder :
      (q hi : ℕ) (es : List (Event F)) (cur : F64)
      → q ≤ hi
      → Ascending q es
      → All (λ e. e.pos ≤ hi) es
      → InOrder q hi (map (λ (s : Segment F). s.span) (sweep F es (some q) cur))
  unfolding sweep
  sweep-InOrder q hi [] cur h o b = h
  sweep-InOrder q hi (e ∷ es) cur h o b =
      let rest = sweep-InOrder e.pos hi es (add64 cur e.delta) b.0 o.1 b.1 in
      elim (Bool-cases (lt64 zero64 cur && ltb q e.pos)) [
        | inl x ↦ rw x (omega arith, ground arith, rest)
        | inr x ↦ rw x (InOrder-weaken e.pos q hi _ o.0 rest)
      ]

  events-All :
      (hi : ℕ) (ds : List (Deposit F))
      → All (λ d. (d.span.start < d.span.end) × (d.span.end ≤ hi)) ds
      → All (λ e. e.pos ≤ hi) (events_of F ds)
  unfolding events_of
  events-All hi [] h = tt
  events-All hi (d ∷ ds) (b, h) = (omega arith, (omega arith, events-All hi ds h))

  first-InOrder :
      (hi : ℕ) (es : List (Event F)) (cur : F.F64)
      → Ascending 0 es
      → All (λ e. e.pos ≤ hi) es
      → InOrder 0 hi (map (λ (s : Segment F). s.span) (sweep F es none cur))
  unfolding sweep
  first-InOrder hi [] cur o b = omega arith
  first-InOrder hi (e ∷ es) cur o b =
      InOrder-weaken e.pos 0 hi _ (omega arith)
        (sweep-InOrder e.pos hi es (F.add64 cur e.delta) b.0 o.1 b.1)

  -- The position is an end of one of the deposits.
  abbrev pub IsEnd : List (Deposit F) → ℕ → Type 0
  IsEnd ds p = Any (λ d. (d.span.start ≡ p) ⊎ (d.span.end ≡ p)) ds

  -- The segment is dense, and begins and ends at ends of deposits.
  abbrev pub IsDense : List (Deposit F) → Segment F → Type 0
  IsDense ds s = (F.lt64 F.zero64 s.density ≡ true) × IsEnd ds s.span.start × IsEnd ds s.span.end

  events-IsEnd :
      (all ds : List (Deposit F))
      → ((p : ℕ) → IsEnd ds p → IsEnd all p)
      → All (λ e. IsEnd all e.pos) (events_of F ds)
  unfolding events_of
  events-IsEnd all [] within = tt
  events-IsEnd all (d ∷ ds) within = (
    within d.span.start (inl (inl refl)),
    (within d.span.end (inl (inr refl)), events-IsEnd all ds (λ p h. within p (inr h))),
  )

  sweep-IsDense :
      (ds : List (Deposit F)) (q : ℕ) (es : List (Event F)) (cur : F.F64)
      → IsEnd ds q
      → All (λ e. IsEnd ds e.pos) es
      → All (IsDense ds) (sweep F es (some q) cur)
  unfolding sweep
  sweep-IsDense ds q [] cur h hs = tt
  sweep-IsDense ds q (e ∷ es) cur h (h', hs) =
      let rest = sweep-IsDense ds e.pos es (F.add64 cur e.delta) h' hs in
      elim (Bool-cases (F.lt64 F.zero64 cur)) [
        | inl dense ↦ elim (Bool-cases (ltb q e.pos)) [
          | inl grows ↦ rw (dense, grows) ((dense, h, h'), rest)
          | inr same ↦ rw (dense, same) rest
        ]
        | inr thin ↦ rw thin rest
      ]

  first-IsDense :
      (ds : List (Deposit F)) (es : List (Event F)) (cur : F.F64)
      → All (λ e. IsEnd ds e.pos) es
      → All (IsDense ds) (sweep F es none cur)
  unfolding sweep
  first-IsDense ds [] cur hs = tt
  first-IsDense ds (e ∷ es) cur (h, hs) = sweep-IsDense ds e.pos es (F.add64 cur e.delta) h hs

  -- Whatever the weights and the rounding of their sums, the segments are nonempty, in order and
  -- apart, below any bound of the deposits; each has a positive density, and begins and ends at an
  -- end of a deposit.
  pub density_segments-InOrder :
      (hi : ℕ) (ds : List (Deposit F))
      → All (λ d. (d.span.start < d.span.end) × (d.span.end ≤ hi)) ds
      → InOrder 0 hi (map (λ (s : Segment F). s.span) (density_segments F ds))
        × All (IsDense ds) (density_segments F ds)
  unfolding density_segments
  density_segments-InOrder hi ds h = (
    first-InOrder hi _ F.zero64 (sort-Ascending (events_of F ds))
        (sort_by-All _ (λ e. e.pos ≤ hi) (events_of F ds) (events-All hi ds h)),
    first-IsDense ds _ F.zero64
        (sort_by-All _ (λ e. IsEnd ds e.pos) (events_of F ds) (events-IsEnd ds ds (λ p e. e))),
  )
