-- ===== src/Floats.antt =====
-- `f64` as src/connection.rs and src/session.rs use it: window sizes, their quotients and products,
-- the casts, and `tanh`. The numbers and their rounding are a parameter.
use nkn_sdk_rust.Prelude.{ℕ, ◌+◌, ◌/◌, ◌≤◌, Bool, ltb, leb, arith, min, ◌*◌}

pub record F64 : Type 1 where
  pub Float : Type 0
  pub of_nat : ℕ → Float
  pub add : Float → Float → Float
  pub mul : Float → Float → Float
  pub div : Float → Float → Float
  pub tanh : Float → Float
  pub lt : Float → Float → Bool
  pub le : Float → Float → Bool
  -- `as u32` and `as u64`
  pub as_u32 : Float → ℕ
  pub as_u64 : Float → ℕ
  -- `tanh` has no value above 1.
  pub as_u64-tanh : (x : Float) → as_u64 (tanh x) ≤ 1

pub tanh_bounded : (x : ℕ) → min x 1 ≤ 1
tanh_bounded x = omega arith

-- Whole numbers, to run the model on.
abbrev pub whole : F64
whole = record {
  Float = ℕ;
  of_nat = λ n. n;
  add = ◌+◌;
  mul = ◌*◌;
  div = ◌/◌;
  tanh = λ x. min x 1;
  lt = ltb;
  le = leb;
  as_u32 = λ x. x;
  as_u64 = λ x. x;
  as_u64-tanh = tanh_bounded;
}
