-- ===== src/Kernels/Floats.antt =====
-- The type `f32` and the operations on it that the kernels use: those of the language, and of `libm`.
use clf.Prelude.{ℕ, Bool}

-- An `i32`, by its magnitude.
pub data I32 : Type 0 where
  pos : ℕ → I32
  negsuc : ℕ → I32

-- `minimum` and `maximum` are `f32::min` and `f32::max`, `to_i32` is `as i32`, `of_nat` is `as f32`.
-- The constants are those that the source writes: 0.0, 1.0, 0.5, 1.0 / 4.0, 0.044715, 0.7978845608,
-- 1e-5 and -1e10.
pub record Floats : Type 1 where
  pub F : Type 0
  pub zero_f : F
  pub one : F
  pub add : F → F → F
  pub sub : F → F → F
  pub mul : F → F → F
  pub div : F → F → F
  pub neg : F → F
  pub abs : F → F
  pub sqrt : F → F
  pub exp : F → F
  pub ln : F → F
  pub tanh : F → F
  pub cos : F → F
  pub sin : F → F
  pub powf : F → F → F
  pub minimum : F → F → F
  pub maximum : F → F → F
  pub fma : F → F → F → F
  pub eq : F → F → Bool
  pub lt : F → F → Bool
  pub le : F → F → Bool
  pub of_nat : ℕ → F
  pub half : F
  pub quarter : F
  pub gelu_cubic : F
  pub gelu_sqrtpi : F
  pub norm_eps : F
  pub log_floor : F
  pub to_i32 : F → I32
