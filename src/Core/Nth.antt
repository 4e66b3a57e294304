-- ===== src/Core/Nth.antt =====
-- Ordered spans by their index.
use attndb.Prelude.{ℕ, zero, suc, ◌≤◌, ◌<◌, List, [], ◌∷◌, length, get_or, arith, inl, inr}
use attndb.Core.Spans.{Span, Holds, Covers, InOrder, InOrder-le}

-- What reading out of range would give.
abbrev pub nowhere : Span
nowhere = record { start = 0; end = 0 }

-- A span of an ordered list lies in the list's range.
pub get_or-InOrder :
    (lo hi k : ℕ) (spans : List Span)
    → InOrder lo hi spans
    → k < length spans
    → (lo ≤ (get_or spans k nowhere).start)
      × ((get_or spans k nowhere).start < (get_or spans k nowhere).end)
      × ((get_or spans k nowhere).end ≤ hi)
get_or-InOrder lo hi k [] o h = absurd (omega arith)
get_or-InOrder lo hi zero (t ∷ spans) (a, b, o) h = (a, b, InOrder-le t.end hi spans o)
get_or-InOrder lo hi (suc k) (t ∷ spans) (a, b, o) h =
    omega (arith, get_or-InOrder t.end hi k spans o (omega arith))

-- Later spans start and end later.
pub get_or_mono :
    (lo hi i k : ℕ) (spans : List Span)
    → InOrder lo hi spans
    → i ≤ k
    → k < length spans
    → ((get_or spans i nowhere).start ≤ (get_or spans k nowhere).start)
      × ((get_or spans i nowhere).end ≤ (get_or spans k nowhere).end)
get_or_mono lo hi i k [] o h l = absurd (omega arith)
get_or_mono lo hi zero zero (t ∷ spans) o h l = omega arith
get_or_mono lo hi zero (suc k) (t ∷ spans) (a, b, o) h l =
    omega (arith, get_or-InOrder t.end hi k spans o (omega arith))
get_or_mono lo hi (suc i) zero (t ∷ spans) o h l = absurd (omega arith)
get_or_mono lo hi (suc i) (suc k) (t ∷ spans) (a, b, o) h l =
    get_or_mono t.end hi i k spans o (omega arith) (omega arith)

-- A span ends before any later one starts.
pub get_or_apart :
    (lo hi i k : ℕ) (spans : List Span)
    → InOrder lo hi spans
    → i < k
    → k < length spans
    → (get_or spans i nowhere).end ≤ (get_or spans k nowhere).start
get_or_apart lo hi i k [] o h l = absurd (omega arith)
get_or_apart lo hi i zero (t ∷ spans) o h l = absurd (omega arith)
get_or_apart lo hi zero (suc k) (t ∷ spans) (a, b, o) h l =
    omega (arith, get_or-InOrder t.end hi k spans o (omega arith))
get_or_apart lo hi (suc i) (suc k) (t ∷ spans) (a, b, o) h l =
    get_or_apart t.end hi i k spans o (omega arith) (omega arith)

-- A position that the spans cover lies in one of them.
pub Covers-get_or :
    (spans : List Span) (p : ℕ)
    → Covers spans p
    → (k : ℕ) × (k < length spans) × Holds (get_or spans k nowhere) p
Covers-get_or [] p v = absurd v
Covers-get_or (t ∷ spans) p (inl h) = (0, omega arith, h)
Covers-get_or (t ∷ spans) p (inr v) =
    let (k, l, h) = Covers-get_or spans p v in (suc k, omega arith, h)
