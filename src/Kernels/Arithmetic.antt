-- ===== src/Kernels/Arithmetic.antt =====
-- kernels/simd/src/lib.rs: arithmetic, activations and functions of one or two floats. Each kernel is
-- a scalar loop, for some also a loop over AVX2 vectors, and the entry point, which takes the code of
-- the build: `avx2` says whether the feature is on.
pub mod Outputs
use clf.Prelude.{ℕ, ◌+◌, Bool, Action, pure, ◌>>=◌, ◌==◌, if◌then◌else◌}
use clf.Kernels.Elementwise.{map_scalar, zip_scalar, map_avx2, zip_avx2, entry}
use clf.Kernels.Floats.{Floats}
use clf.Kernels.Lanes.{min_ps, max_ps}
use clf.Kernels.Memory.{Kernel, load, store, for_each, done}

module _ (fp : Floats) where
  open fp use {F, zero_f, one, half, gelu_cubic, gelu_sqrtpi, log_floor, eq, lt}

  -- The floats that the loops put out, from the floats that they read.
  abbrev pub relu : F → F
  relu v = if lt zero_f v then v else zero_f

  -- What `divide_scalar` puts out.
  abbrev pub divide : F → F → F
  divide a b = if eq b zero_f then zero_f else fp.div a b

  abbrev pub sigmoid : F → F
  sigmoid v = fp.div one (fp.add one (fp.exp (fp.neg v)))

  abbrev pub swish : F → F
  swish v = fp.mul v (fp.div one (fp.add one (fp.exp (fp.neg v))))

  abbrev pub gelu : F → F
  gelu v =
      let inner = fp.add v (fp.mul (fp.mul (fp.mul gelu_cubic v) v) v) in
      fp.mul (fp.mul half v) (fp.add one (fp.tanh (fp.mul gelu_sqrtpi inner)))

  abbrev pub log_of : F → F
  log_of v = if lt zero_f v then fp.ln v else log_floor

  abbrev pub sqrt_of : F → F
  sqrt_of v = fp.sqrt (fp.maximum v zero_f)

  abbrev pub sqrt_lane : F → F
  sqrt_lane v = fp.sqrt (max_ps fp v zero_f)

  abbrev pub relu_lane : F → F
  relu_lane v = max_ps fp v zero_f

  unfoldable pub add_scalar : (out a b count : ℕ) → Kernel F (Unit {0})
  add_scalar out a b count = zip_scalar fp.add out a b count

  unfoldable pub add_avx2 : (out a b count : ℕ) → Kernel F (Unit {0})
  unfolding add_scalar
  add_avx2 out a b count = zip_avx2 fp.add add_scalar out a b count

  unfoldable pub clf_simd_add : (avx2 : Bool) (out a b count : ℕ) → Kernel F (Unit {0})
  unfolding add_scalar add_avx2
  clf_simd_add avx2 out a b count =
      entry avx2 count (add_avx2 out a b count) (add_scalar out a b count)

  unfoldable pub subtract_scalar : (out a b count : ℕ) → Kernel F (Unit {0})
  subtract_scalar out a b count = zip_scalar fp.sub out a b count

  unfoldable pub subtract_avx2 : (out a b count : ℕ) → Kernel F (Unit {0})
  unfolding subtract_scalar
  subtract_avx2 out a b count = zip_avx2 fp.sub subtract_scalar out a b count

  unfoldable pub clf_simd_subtract : (avx2 : Bool) (out a b count : ℕ) → Kernel F (Unit {0})
  unfolding subtract_scalar subtract_avx2
  clf_simd_subtract avx2 out a b count =
      entry avx2 count (subtract_avx2 out a b count) (subtract_scalar out a b count)

  unfoldable pub multiply_scalar : (out a b count : ℕ) → Kernel F (Unit {0})
  multiply_scalar out a b count = zip_scalar fp.mul out a b count

  unfoldable pub multiply_avx2 : (out a b count : ℕ) → Kernel F (Unit {0})
  unfolding multiply_scalar
  multiply_avx2 out a b count = zip_avx2 fp.mul multiply_scalar out a b count

  unfoldable pub clf_simd_multiply : (avx2 : Bool) (out a b count : ℕ) → Kernel F (Unit {0})
  unfolding multiply_scalar multiply_avx2
  clf_simd_multiply avx2 out a b count =
      entry avx2 count (multiply_avx2 out a b count) (multiply_scalar out a b count)

  -- The divisor is read first, and the dividend only where it is not zero.
  abbrev pub quotient : ℕ → F → Kernel F F
  quotient p bv = if eq bv zero_f then pure zero_f else (load p >>= λ av. pure (fp.div av bv))

  unfoldable pub divide_scalar : (out a b count : ℕ) → Kernel F (Unit {0})
  divide_scalar out a b count =
      for_each count (λ i. load (b + i) >>= λ bv. quotient (a + i) bv >>= λ v. store (out + i) v)

  unfoldable pub divide_avx2 : (out a b count : ℕ) → Kernel F (Unit {0})
  unfolding divide_scalar
  divide_avx2 out a b count = zip_avx2 fp.div divide_scalar out a b count

  unfoldable pub clf_simd_divide : (avx2 : Bool) (out a b count : ℕ) → Kernel F (Unit {0})
  unfolding divide_scalar divide_avx2
  clf_simd_divide avx2 out a b count =
      entry avx2 count (divide_avx2 out a b count) (divide_scalar out a b count)

  unfoldable pub min_scalar : (out a b count : ℕ) → Kernel F (Unit {0})
  min_scalar out a b count = zip_scalar fp.minimum out a b count

  unfoldable pub min_avx2 : (out a b count : ℕ) → Kernel F (Unit {0})
  unfolding min_scalar
  min_avx2 out a b count = zip_avx2 (min_ps fp) min_scalar out a b count

  unfoldable pub clf_simd_min : (avx2 : Bool) (out a b count : ℕ) → Kernel F (Unit {0})
  unfolding min_scalar min_avx2
  clf_simd_min avx2 out a b count =
      entry avx2 count (min_avx2 out a b count) (min_scalar out a b count)

  unfoldable pub max_scalar : (out a b count : ℕ) → Kernel F (Unit {0})
  max_scalar out a b count = zip_scalar fp.maximum out a b count

  unfoldable pub max_avx2 : (out a b count : ℕ) → Kernel F (Unit {0})
  unfolding max_scalar
  max_avx2 out a b count = zip_avx2 (max_ps fp) max_scalar out a b count

  unfoldable pub clf_simd_max : (avx2 : Bool) (out a b count : ℕ) → Kernel F (Unit {0})
  unfolding max_scalar max_avx2
  clf_simd_max avx2 out a b count =
      entry avx2 count (max_avx2 out a b count) (max_scalar out a b count)

  unfoldable pub relu_scalar : (out x count : ℕ) → Kernel F (Unit {0})
  relu_scalar out x count = map_scalar relu out x count

  unfoldable pub relu_avx2 : (out x count : ℕ) → Kernel F (Unit {0})
  unfolding relu_scalar
  relu_avx2 out x count = map_avx2 relu_lane relu_scalar out x count

  unfoldable pub clf_simd_relu : (avx2 : Bool) (out x count : ℕ) → Kernel F (Unit {0})
  unfolding relu_scalar relu_avx2
  clf_simd_relu avx2 out x count =
      entry avx2 count (relu_avx2 out x count) (relu_scalar out x count)

  -- The mask of the vector code clears the sign bit, as `f32::abs` does.
  unfoldable pub abs_scalar : (out x count : ℕ) → Kernel F (Unit {0})
  abs_scalar out x count = map_scalar fp.abs out x count

  unfoldable pub abs_avx2 : (out x count : ℕ) → Kernel F (Unit {0})
  unfolding abs_scalar
  abs_avx2 out x count = map_avx2 fp.abs abs_scalar out x count

  unfoldable pub clf_simd_abs : (avx2 : Bool) (out x count : ℕ) → Kernel F (Unit {0})
  unfolding abs_scalar abs_avx2
  clf_simd_abs avx2 out x count = entry avx2 count (abs_avx2 out x count) (abs_scalar out x count)

  unfoldable pub sqrt_scalar : (out x count : ℕ) → Kernel F (Unit {0})
  sqrt_scalar out x count = map_scalar sqrt_of out x count

  unfoldable pub sqrt_avx2 : (out x count : ℕ) → Kernel F (Unit {0})
  unfolding sqrt_scalar
  sqrt_avx2 out x count = map_avx2 sqrt_lane sqrt_scalar out x count

  unfoldable pub clf_simd_sqrt : (avx2 : Bool) (out x count : ℕ) → Kernel F (Unit {0})
  unfolding sqrt_scalar sqrt_avx2
  clf_simd_sqrt avx2 out x count =
      entry avx2 count (sqrt_avx2 out x count) (sqrt_scalar out x count)

  unfoldable pub sigmoid_scalar : (out x count : ℕ) → Kernel F (Unit {0})
  sigmoid_scalar out x count = map_scalar sigmoid out x count

  unfoldable pub clf_simd_sigmoid : (out x count : ℕ) → Kernel F (Unit {0})
  unfolding sigmoid_scalar
  clf_simd_sigmoid out x count = if count == 0 then done else sigmoid_scalar out x count

  unfoldable pub tanh_scalar : (out x count : ℕ) → Kernel F (Unit {0})
  tanh_scalar out x count = map_scalar fp.tanh out x count

  unfoldable pub clf_simd_tanh : (out x count : ℕ) → Kernel F (Unit {0})
  unfolding tanh_scalar
  clf_simd_tanh out x count = if count == 0 then done else tanh_scalar out x count

  unfoldable pub swish_scalar : (out x count : ℕ) → Kernel F (Unit {0})
  swish_scalar out x count = map_scalar swish out x count

  unfoldable pub clf_simd_swish : (out x count : ℕ) → Kernel F (Unit {0})
  unfolding swish_scalar
  clf_simd_swish out x count = if count == 0 then done else swish_scalar out x count

  unfoldable pub gelu_scalar : (out x count : ℕ) → Kernel F (Unit {0})
  gelu_scalar out x count = map_scalar gelu out x count

  unfoldable pub clf_simd_gelu : (out x count : ℕ) → Kernel F (Unit {0})
  unfolding gelu_scalar
  clf_simd_gelu out x count = if count == 0 then done else gelu_scalar out x count

  unfoldable pub cos_scalar : (out x count : ℕ) → Kernel F (Unit {0})
  cos_scalar out x count = map_scalar fp.cos out x count

  unfoldable pub clf_simd_cos : (out x count : ℕ) → Kernel F (Unit {0})
  unfolding cos_scalar
  clf_simd_cos out x count = if count == 0 then done else cos_scalar out x count

  unfoldable pub sin_scalar : (out x count : ℕ) → Kernel F (Unit {0})
  sin_scalar out x count = map_scalar fp.sin out x count

  unfoldable pub clf_simd_sin : (out x count : ℕ) → Kernel F (Unit {0})
  unfolding sin_scalar
  clf_simd_sin out x count = if count == 0 then done else sin_scalar out x count

  unfoldable pub exp_scalar : (out x count : ℕ) → Kernel F (Unit {0})
  exp_scalar out x count = map_scalar fp.exp out x count

  unfoldable pub clf_simd_exp : (out x count : ℕ) → Kernel F (Unit {0})
  unfolding exp_scalar
  clf_simd_exp out x count = if count == 0 then done else exp_scalar out x count

  unfoldable pub log_scalar : (out x count : ℕ) → Kernel F (Unit {0})
  log_scalar out x count = map_scalar log_of out x count

  unfoldable pub clf_simd_log : (out x count : ℕ) → Kernel F (Unit {0})
  unfolding log_scalar
  clf_simd_log out x count = if count == 0 then done else log_scalar out x count

  unfoldable pub pow_scalar : (out x count : ℕ) → F → Kernel F (Unit {0})
  pow_scalar out x count exp = map_scalar (λ v. fp.powf v exp) out x count

  unfoldable pub clf_simd_pow : (out x count : ℕ) → F → Kernel F (Unit {0})
  unfolding pow_scalar
  clf_simd_pow out x count exp = if count == 0 then done else pow_scalar out x count exp
