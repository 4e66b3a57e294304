-- ===== src/Heat/Density/Sum.antt =====
-- The density at a position is the sum of the weights of the deposits that hold it.
use attndb.Prelude.{
  ℕ, suc, ◌+◌, ◌*◌, ◌≤◌, ◌<◌, ◌≡◌, refl, sym, ◌∙◌, ap, true, false, ◌&&◌, none, some, List, [], ◌∷◌,
  length, if◌then◌else◌, ltb, leb, arith, Bool-cases, inl, inr, All,
}
use attndb.Prelude.Int.{ℤ, pos, ◌+ℤ◌, ◌-ℤ◌, ltb_ℤ, +ℤ_comm, +ℤ_assoc}
use attndb.Prelude.Sort.{insert_by, sort_by, sort_by-All}
use attndb.Core.Floats.{Floats}
use attndb.Heat.Density.Order.{Ascending, before, sort-Ascending}
use attndb.Heat.Density.{Deposit, Segment, Event, events_of, sweep, density_segments}

-- Floats among which no sum is rounded, as long as there are not too many: `Units n x` says that `x`
-- is a whole number of units, `value x`, of at most `n` either way. Of float64, these are the
-- multiples of a power of 2 that is the unit, with `bound` 2^53.
pub record ExactSums (F : Floats) (bound : ℕ) : Type 1 where
  pub Units : ℕ → F.F64 → Type 0
  pub value : F.F64 → ℤ
  pub zero : Units 0 F.zero64 × (value F.zero64 ≡ pos 0)
  pub neg :
      (n : ℕ) (x : F.F64) → Units n x → Units n (F.neg64 x) × (value (F.neg64 x) ≡ pos 0 -ℤ value x)
  pub add :
      (m n : ℕ) (x y : F.F64)
      → Units m x
      → Units n y
      → m + n ≤ bound
      → Units (m + n) (F.add64 x y) × (value (F.add64 x y) ≡ value x +ℤ value y)
  pub sign : (n : ℕ) (x : F.F64) → Units n x → F.lt64 F.zero64 x ≡ ltb_ℤ (pos 0) (value x)

module _ (F : Floats) where
  open F use {F64, zero64, add64, neg64, lt64}

  -- The density of the segment that holds `p`, zero where none does.
  abbrev pub density_at : List (Segment F) → ℕ → F64
  density_at [] p = zero64
  density_at (s ∷ segs) p =
      if leb s.span.start p && ltb p s.span.end then s.density else density_at segs p

  -- Behind the last event nothing is emitted, and before F the next one only what is open.
  density_at_before :
      (p q : ℕ) (es : List (Event F)) (cur : F64)
      → p < q
      → Ascending F q es
      → density_at (sweep F es (some q) cur) p ≡ zero64
  unfolding sweep
  density_at_before p q [] cur h o = refl
  density_at_before p q (e ∷ es) cur h o =
      let rest = density_at_before p e.pos es (add64 cur e.delta) (omega arith) o.1 in
      elim (Bool-cases (lt64 zero64 cur && ltb q e.pos)) [
        | inl x ↦ let past : leb q p ≡ false = ground arith in rw (x, past) rest
        | inr x ↦ rw x rest
      ]

  module _ (bound : ℕ) (laws : ExactSums F bound) where
    open laws use {Units, value, neg, add, sign}

    -- The weights of the deposits that hold `p`.
    abbrev pub weight_at : List (Deposit F) → ℕ → ℤ
    weight_at [] p = pos 0
    weight_at (d ∷ ds) p =
        if leb d.span.start p && ltb p d.span.end
        then value d.weight +ℤ weight_at ds p
        else weight_at ds p

    abbrev pub positive : ℤ → ℤ
    positive x = if ltb_ℤ (pos 0) x then x else pos 0

    abbrev sum_to : ℕ → List (Event F) → ℤ
    sum_to p [] = pos 0
    sum_to p (e ∷ es) = if leb e.pos p then value e.delta +ℤ sum_to p es else sum_to p es

    abbrev sum_all : List (Event F) → ℤ
    sum_all [] = pos 0
    sum_all (e ∷ es) = value e.delta +ℤ sum_all es

    -- How many units the sum of so many weights of at most `w` may have.
    abbrev need : ℕ → List (Event F) → ℕ
    need w [] = 0
    need w (e ∷ es) = w + need w es

    left_comm : (a b c : ℤ) → a +ℤ (b +ℤ c) ≡ b +ℤ (a +ℤ c)
    left_comm a b c = sym (+ℤ_assoc a b c) ∙ (ap (λ x. x +ℤ c) (+ℤ_comm a b) ∙ +ℤ_assoc b a c)

    zero_left : (a : ℤ) → pos 0 +ℤ a ≡ a
    unfolding ◌+ℤ◌
    zero_left a = ground arith

    zero_right : (a : ℤ) → a +ℤ pos 0 ≡ a
    zero_right a = +ℤ_comm a (pos 0) ∙ zero_left a

    neg_cancel : (a b : ℤ) → a +ℤ (pos 0 -ℤ a +ℤ b) ≡ b
    unfolding ◌+ℤ◌ ◌-ℤ◌
    neg_cancel a b = ground arith

    insert-sum_to :
        (p : ℕ) (e : Event F) (es : List (Event F))
        → sum_to p (insert_by (before F) e es) ≡ sum_to p (e ∷ es)
    unfolding insert_by
    insert-sum_to p e [] = refl
    insert-sum_to p e (x ∷ es) =
        ground
          (arith, insert-sum_to p e es, left_comm (value x.delta) (value e.delta) (sum_to p es))

    sort-sum_to : (p : ℕ) (es : List (Event F)) → sum_to p (sort_by (before F) es) ≡ sum_to p es
    unfolding sort_by
    sort-sum_to p [] = refl
    sort-sum_to p (e ∷ es) =
        insert-sum_to p e (sort_by (before F) es) ∙ ground (arith, sort-sum_to p es)

    insert-sum_all :
        (e : Event F) (es : List (Event F)) → sum_all (insert_by (before F) e es) ≡ sum_all (e ∷ es)
    unfolding insert_by
    insert-sum_all e [] = refl
    insert-sum_all e (x ∷ es) =
        ground (arith, insert-sum_all e es, left_comm (value x.delta) (value e.delta) (sum_all es))

    sort-sum_all : (es : List (Event F)) → sum_all (sort_by (before F) es) ≡ sum_all es
    unfolding sort_by
    sort-sum_all [] = refl
    sort-sum_all (e ∷ es) =
        insert-sum_all e (sort_by (before F) es) ∙ ap (λ x. value e.delta +ℤ x) (sort-sum_all es)

    insert-need :
        (w : ℕ) (e : Event F) (es : List (Event F))
        → need w (insert_by (before F) e es) ≡ w + need w es
    unfolding insert_by
    insert-need w e [] = refl
    insert-need w e (x ∷ es) = ground (arith, insert-need w e es)

    sort-need : (w : ℕ) (es : List (Event F)) → need w (sort_by (before F) es) ≡ need w es
    unfolding sort_by
    sort-need w [] = refl
    sort-need w (e ∷ es) =
        insert-need w e (sort_by (before F) es) ∙ ap (λ n. w + n) (sort-need w es)

    mul_next : (n k : ℕ) → suc n * k ≡ k + n * k
    mul_next n k = grind arith

    events-need : (w : ℕ) (ds : List (Deposit F)) → need w (events_of F ds) ≡ length ds * (w + w)
    unfolding events_of
    events-need w [] = omega arith
    events-need w (d ∷ ds) =
        let n = events-need w ds in let m = mul_next (length ds) (w + w) in omega (arith, n, m)

    abbrev Light : ℕ → List (Deposit F) → Type 0
    Light w ds = All (λ d. (d.span.start < d.span.end) × Units w d.weight) ds

    events-Units :
        (w : ℕ) (ds : List (Deposit F)) → Light w ds → All (λ e. Units w e.delta) (events_of F ds)
    unfolding events_of
    events-Units w [] h = tt
    events-Units w (d ∷ ds) ((b, u), h) = (u, ((neg w d.weight u).0, events-Units w ds h))

    events-sum_all : (w : ℕ) (ds : List (Deposit F)) → Light w ds → sum_all (events_of F ds) ≡ pos 0
    unfolding events_of
    events-sum_all w [] h = refl
    events-sum_all w (d ∷ ds) ((b, u), h) =
        ap (λ x. value d.weight +ℤ (x +ℤ sum_all (events_of F ds))) (neg w d.weight u).1
        ∙ neg_cancel (value d.weight) (sum_all (events_of F ds))
        ∙ events-sum_all w ds h

    events-sum_to :
        (p w : ℕ) (ds : List (Deposit F)) → Light w ds → sum_to p (events_of F ds) ≡ weight_at ds p
    unfolding events_of
    events-sum_to p w [] h = refl
    events-sum_to p w (d ∷ ds) ((b, u), h) =
        let inverse = (neg w d.weight u).1 in
        ground (
          arith,
          inverse,
          events-sum_to p w ds h,
          neg_cancel (value d.weight) (sum_to p (events_of F ds)),
        )

    sum_to_before : (p q : ℕ) (es : List (Event F)) → p < q → Ascending F q es → sum_to p es ≡ pos 0
    sum_to_before p q [] h o = refl
    sum_to_before p q (e ∷ es) h o =
        let past : leb e.pos p ≡ false = ground arith in
        rw past (sum_to_before p e.pos es (omega arith) o.1)

    positive_over : (x : ℤ) → ltb_ℤ (pos 0) x ≡ true → positive x ≡ x
    positive_over x h = ground arith

    positive_under : (x : ℤ) → ltb_ℤ (pos 0) x ≡ false → positive x ≡ pos 0
    positive_under x h = ground arith

    own_density :
        (p q : ℕ) (e : Event F) (es : List (Event F)) (cur : F64)
        → q ≤ p
        → leb e.pos p ≡ false
        → lt64 zero64 cur ≡ true
        → density_at (sweep F (e ∷ es) (some q) cur) p ≡ cur
    unfolding sweep
    own_density p q e es cur h not_yet dense =
        let grows : ltb q e.pos ≡ true = ground arith in
        let from_q : leb q p ≡ true = ground arith in
        let inside : ltb p e.pos ≡ true = ground arith in rw (dense, grows, from_q, inside) refl

    sweep-density_at :
        (p q k w : ℕ) (es : List (Event F)) (cur : F64)
        → q ≤ p
        → Ascending F q es
        → Units k cur
        → All (λ e. Units w e.delta) es
        → k + need w es ≤ bound
        → value cur +ℤ sum_all es ≡ pos 0
        → value (density_at (sweep F es (some q) cur) p) ≡ positive (value cur +ℤ sum_to p es)
    unfolding sweep
    sweep-density_at p q k w [] cur h o u us room z = rw z laws.zero.1
    sweep-density_at p q k w (e ∷ es) cur h o u (u', us) room z =
        let (unit, sum) = add k w cur e.delta u u' (omega arith) in
        elim (Bool-cases (leb e.pos p)) [
          | inl reached ↦
              let ih =
                sweep-density_at p e.pos (k + w) w es (add64 cur e.delta) (ground arith) o.1 unit us
                  (omega arith)
                  (ap (λ x. x +ℤ sum_all es) sum
                    ∙ +ℤ_assoc (value cur) (value e.delta) (sum_all es)
                    ∙ z) in
              let exact = +ℤ_assoc (value cur) (value e.delta) (sum_to p es) in
              let same : value (density_at (sweep F es (some e.pos) (add64 cur e.delta)) p)
                  ≡ positive (value cur +ℤ (value e.delta +ℤ sum_to p es)) =
                ih ∙ ap positive (ap (λ x. x +ℤ sum_to p es) sum ∙ exact) in
              rw reached (elim (Bool-cases (lt64 zero64 cur && ltb q e.pos)) [
                | inl x ↦
                    let past : ltb p e.pos ≡ false = ground arith in
                    let from_q : leb q p ≡ true = ground arith in rw (x, from_q, past) same
                | inr x ↦ rw x same
              ])
          | inr not_yet ↦
              let ended = density_at_before p e.pos es (add64 cur e.delta) (ground arith) o.1 in
              let none_yet = sum_to_before p e.pos es (ground arith) o.1 in
              let right : positive (value cur +ℤ sum_to p (e ∷ es)) ≡ positive (value cur) =
                rw not_yet (
                  ap (λ x. positive (value cur +ℤ x)) none_yet
                  ∙ ap positive (zero_right (value cur))) in
              elim (Bool-cases (lt64 zero64 cur)) [
                | inl dense ↦
                    let left : density_at (sweep F (e ∷ es) (some q) cur) p ≡ cur =
                      own_density p q e es cur h not_yet dense in
                    ap value left
                    ∙ sym (positive_over (value cur) (sym (sign k cur u) ∙ dense))
                    ∙ sym right
                | inr thin ↦ rw thin (
                    ap value ended
                    ∙ laws.zero.1
                    ∙ sym (positive_under (value cur) (sym (sign k cur u) ∙ thin))
                    ∙ sym right)
              ]
        ]

    first-density_at :
        (p w : ℕ) (es : List (Event F))
        → Ascending F 0 es
        → All (λ e. Units w e.delta) es
        → need w es ≤ bound
        → sum_all es ≡ pos 0
        → value (density_at (sweep F es none zero64) p) ≡ positive (sum_to p es)
    unfolding sweep
    first-density_at p w [] o us room z = laws.zero.1
    first-density_at p w (e ∷ es) o (u, us) room z =
        let (unit, sum) = add 0 w zero64 e.delta laws.zero.0 u (omega arith) in
        let own : value (add64 zero64 e.delta) ≡ value e.delta =
          sum ∙ ap (λ x. x +ℤ value e.delta) laws.zero.1 ∙ zero_left (value e.delta) in
        elim (Bool-cases (leb e.pos p)) [
          | inl reached ↦
              let later =
                sweep-density_at p e.pos (0 + w) w es (add64 zero64 e.delta) (ground arith) o.1 unit
                  us (omega arith) (ap (λ x. x +ℤ sum_all es) own ∙ z) in
              rw reached (later ∙ ap (λ x. positive (x +ℤ sum_to p es)) own)
          | inr not_yet ↦
              let ended = density_at_before p e.pos es (add64 zero64 e.delta) (ground arith) o.1 in
              let none_yet = sum_to_before p e.pos es (ground arith) o.1 in
              rw (not_yet, ended, none_yet) laws.zero.1
        ]

    -- If no deposit is empty, each weight is a whole number of at most `w` units, and that many
    -- units for both ends of each deposit are within the bound below which sums are exact, then the
    -- density at each position is the sum of the weights of the deposits that hold it, or zero where
    -- that sum is not positive.
    pub density_segments-weight_at :
        (w : ℕ) (ds : List (Deposit F)) (p : ℕ)
        → All (λ d. (d.span.start < d.span.end) × Units w d.weight) ds
        → length ds * (w + w) ≤ bound
        → value (density_at (density_segments F ds) p) ≡ positive (weight_at ds p)
    unfolding density_segments
    density_segments-weight_at w ds p h room =
        let size = sort-need w (events_of F ds) ∙ events-need w ds in
        first-density_at p w _ (sort-Ascending F (events_of F ds))
          (sort_by-All (before F) (λ e. Units w e.delta) (events_of F ds) (events-Units w ds h))
          (omega (arith, size, room)) (sort-sum_all (events_of F ds) ∙ events-sum_all w ds h)
        ∙ ap positive (sort-sum_to p (events_of F ds) ∙ events-sum_to p w ds h)
