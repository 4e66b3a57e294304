-- ===== src/Core/Floats.antt =====
-- The floating-point numbers of Go, which antt has not: the carriers and the operations that the
-- program uses are a parameter of what computes with them. No law is assumed here; a theorem that
-- needs one states it as a hypothesis.
use attndb.Prelude.{ℕ, Bool}

pub record Floats : Type 1 where
  pub F32 : Type 0
  pub F64 : Type 0
  pub zero32 : F32
  pub one32 : F32
  pub minus_one32 : F32
  pub add32 : F32 → F32 → F32
  pub mul32 : F32 → F32 → F32
  pub div32 : F32 → F32 → F32
  pub lt32 : F32 → F32 → Bool
  pub of_ℕ32 : ℕ → F32
  pub widen : F32 → F64
  pub narrow : F64 → F32
  pub zero64 : F64
  pub half64 : F64
  pub one64 : F64
  pub minus_inf64 : F64
  pub add64 : F64 → F64 → F64
  pub sub64 : F64 → F64 → F64
  pub mul64 : F64 → F64 → F64
  pub div64 : F64 → F64 → F64
  pub neg64 : F64 → F64
  -- the built-in min and max, which pass a NaN on
  pub min64 : F64 → F64 → F64
  pub max64 : F64 → F64 → F64
  pub sqrt64 : F64 → F64
  pub lt64 : F64 → F64 → Bool
  pub eq64 : F64 → F64 → Bool
  pub of_ℕ64 : ℕ → F64
  -- 0.9 and 1e-6
  pub nine_tenths64 : F64
  pub micro64 : F64
  -- int(x), for an x that is not negative
  pub trunc64 : F64 → ℕ
