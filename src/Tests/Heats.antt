-- ===== src/Tests/Heats.antt =====
-- The heatmap over integer weights.
use attndb.Prelude.{ℕ, ◌≤◌, ◌≡◌, refl, List, [], ◌∷◌, map, arith, Any, All, if◌then◌else◌}
use attndb.Prelude.Int.{ℤ, pos, pos_part, neg_part, negsuc, ◌+ℤ◌, ◌-ℤ◌, ◌*ℤ◌, ltb_ℤ}
use attndb.Prelude.Text.{codes}
use attndb.Core.Spans.{InOrder}
use attndb.Core.Floats.{Floats}
use attndb.Store.Memory.{int_eq}
use attndb.Heat.Density.{Deposit, Segment, density_segments}
use attndb.Heat.Density.Sum.{ExactSums, weight_at, density_at, positive, density_segments-weight_at}
use attndb.Heat.Density.Order.{IsDense, density_segments-InOrder}
use attndb.Heat.Peaks.{extract_peaks}
use attndb.Heat.Peaks.Apart.{Apart, extract_peaks-Apart}
use attndb.Heat.Peaks.Cover.{HoldsSegment, extract_peaks-HoldsSegment}

-- The integers in place of the floats; division and the root give their first
-- argument.
abbrev pub integers : Floats
integers = record {
  F32 = ℤ;
  F64 = ℤ;
  zero32 = pos 0;
  one32 = pos 1;
  minus_one32 = negsuc 0;
  add32 = λ a b. a +ℤ b;
  mul32 = λ a b. a *ℤ b;
  div32 = λ a b. a;
  lt32 = ltb_ℤ;
  of_ℕ32 = pos;
  widen = λ a. a;
  narrow = λ a. a;
  zero64 = pos 0;
  half64 = pos 1;
  one64 = pos 2;
  minus_inf64 = negsuc 999;
  add64 = λ a b. a +ℤ b;
  sub64 = λ a b. a -ℤ b;
  mul64 = λ a b. a *ℤ b;
  div64 = λ a b. a;
  neg64 = λ a. pos 0 -ℤ a;
  min64 = λ a b. if ltb_ℤ b a then b else a;
  max64 = λ a b. if ltb_ℤ a b then b else a;
  sqrt64 = λ a. a;
  lt64 = ltb_ℤ;
  eq64 = int_eq;
  of_ℕ64 = pos;
  nine_tenths64 = pos 1;
  micro64 = pos 1;
  trunc64 = pos_part;
}

abbrev AtMost : ℕ → ℤ → Type 0
AtMost n x = (pos_part x ≤ n) × (neg_part x ≤ n)

exact : ExactSums integers 100
unfolding ◌+ℤ◌ ◌-ℤ◌
exact = record {
  Units = AtMost;
  value = λ x. x;
  zero = ((omega arith, omega arith), refl);
  neg = λ n x u. ((ground arith, ground arith), refl);
  add = λ m n x y u v room. ((ground arith, ground arith), refl);
  sign = λ n x u. refl;
}

abbrev deposits : List (Deposit integers)
deposits =
    record { doc_id = codes "a"; span = record { start = 2; end = 8 }; weight = pos 3 }
    ∷ record { doc_id = codes "a"; span = record { start = 5; end = 9 }; weight = pos 4 }
    ∷ []

abbrev segments : List (Segment integers)
segments =
    record { span = record { start = 2; end = 5 }; density = pos 3 }
    ∷ record { span = record { start = 5; end = 8 }; density = pos 7 }
    ∷ record { span = record { start = 8; end = 9 }; density = pos 4 }
    ∷ []

segments-InOrder : InOrder 0 9 (map (λ (s : Segment integers). s.span) segments)
segments-InOrder =
    (omega arith, omega arith, (omega arith, omega arith, (omega arith, omega arith, omega arith)))

density_segments-weight_at_example :
    density_at integers (density_segments integers deposits) 6
    ≡ positive integers 100 exact (weight_at integers 100 exact deposits 6)
unfolding exact
density_segments-weight_at_example =
    density_segments-weight_at integers 100 exact 4 deposits 6
      ((omega arith, (omega arith, omega arith)), ((omega arith, (omega arith, omega arith)), tt))
      (omega arith)

density_segments-InOrder_example :
    InOrder 0 9 (map (λ (s : Segment integers). s.span) (density_segments integers deposits))
    × All (IsDense integers deposits) (density_segments integers deposits)
density_segments-InOrder_example =
    density_segments-InOrder integers 9 deposits
      ((omega arith, omega arith), ((omega arith, omega arith), tt))

extract_peaks-Apart_example : Apart integers (extract_peaks integers segments (pos 1))
extract_peaks-Apart_example = extract_peaks-Apart integers segments (pos 1) 9 segments-InOrder

extract_peaks-HoldsSegment_example :
    Any
      (HoldsSegment integers segments (pos 1) 9 segments-InOrder 2)
      (extract_peaks integers segments (pos 1))
extract_peaks-HoldsSegment_example =
    extract_peaks-HoldsSegment integers segments (pos 1) 9 segments-InOrder 2 (omega arith)
