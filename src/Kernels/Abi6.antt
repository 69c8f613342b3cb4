-- ===== src/Kernels/Abi6.antt =====
-- kernels/simd/src/lib.rs: the entry points with six arguments, which are what an archive's blobs hold.
-- They derive the shapes from the lengths of the three buffers.
pub mod Dimensions
use clf.Prelude.{
  ℕ, ◌+◌, ◌-◌, ◌*◌, ◌/◌, Bool, ◌||◌, Option, none, some, Action, pure, raise, ◌>>=◌, ◌>>◌, ltb,
  ◌==◌, if◌then◌else◌,
}
use clf.Kernels.Arithmetic.{
  add_scalar, add_avx2, abs_scalar, abs_avx2, relu_scalar, relu_avx2, clf_simd_min, clf_simd_max,
}
use clf.Kernels.Conv.{
  Sides, ConvShapes, mul_usize, sides_of, derive_conv_shapes, conv_scalar, conv_avx2,
}
use clf.Kernels.Floats.{Floats}
use clf.Kernels.Matmul.{matmul_scalar, matmul_avx2}
use clf.Kernels.Memory.{Kernel, copy_nonoverlapping, done, divide_by_zero}
use clf.Kernels.Movement.{clf_simd_broadcast, clf_simd_expand}
use clf.Kernels.Normalize.{batchnorm_scalar, batchnorm_avx2}
use clf.Kernels.Pool.{global_avg_pool_scalar, global_avg_pool_avx2}

-- The arguments of an entry point, in their order.
abbrev pub Abi6 : Type 0 → Type 0
Abi6 F = (input output weights in_len out_len w_len : ℕ) → Kernel F (Unit {0})

-- `avx2` is the build's feature, `isqrt` is `(x as f64).sqrt() as usize`.
module _ (fp : Floats) (avx2 : Bool) (isqrt : ℕ → ℕ) where
  open fp use {F}

  -- `#[cfg]` between two calls
  abbrev select : Kernel F (Unit {0}) → Kernel F (Unit {0}) → Kernel F (Unit {0})
  select vector scalar = if avx2 then vector else scalar

  unfoldable pub clf_abi6_add : Abi6 F
  clf_abi6_add input output weights in_len out_len w_len =
      if in_len == 0
      then done
      else select (add_avx2 fp output input weights in_len)
          (add_scalar fp output input weights in_len)

  unfoldable pub clf_abi6_abs : Abi6 F
  clf_abi6_abs input output weights in_len out_len w_len =
      if in_len == 0
      then done
      else select (abs_avx2 fp output input in_len) (abs_scalar fp output input in_len)

  unfoldable pub clf_abi6_relu : Abi6 F
  clf_abi6_relu input output weights in_len out_len w_len =
      if in_len == 0
      then done
      else select (relu_avx2 fp output input in_len) (relu_scalar fp output input in_len)

  unfoldable pub clf_abi6_batchnorm : Abi6 F
  clf_abi6_batchnorm input output weights in_len out_len w_len =
      let c = w_len / 4 in
      let image = sides_of isqrt (in_len / c) in
      let bias = weights + c in
      let mean = weights + 2 * c in
      let var = weights + 3 * c in
      if in_len == 0
      then done
      else if w_len == 0
      then (if input == output then done else copy_nonoverlapping input output in_len)
      else if c == 0
      then done
      else select
          (batchnorm_avx2 fp output input weights bias mean var 1 c image.height image.width)
          (batchnorm_scalar fp output input weights bias mean var 1 c image.height image.width)

  unfoldable pub clf_abi6_global_avg_pool : Abi6 F
  clf_abi6_global_avg_pool input output weights in_len out_len w_len =
      let image = sides_of isqrt (in_len / out_len) in
      if out_len == 0
      then done
      else select (global_avg_pool_avx2 fp output input 1 out_len image.height image.width)
          (global_avg_pool_scalar fp output input 1 out_len image.height image.width)

  -- Strides of one, and half a kernel of padding.
  abbrev conv_with : (input output weights : ℕ) → Option ConvShapes → Kernel F (Unit {0})
  conv_with input output weights none = done
  conv_with input output weights (some s) =
      let ones : Sides = record { height = 1; width = 1 } in
      let pad : Sides = record {
        height = (s.kernel.height - 1) / 2;
        width = (s.kernel.width - 1) / 2;
      } in
      select (conv_avx2 fp output input weights none 1 s.c_in s.image s.c_out s.kernel ones pad)
        (conv_scalar fp output input weights none 1 s.c_in s.image s.c_out s.kernel ones pad)

  unfoldable pub clf_abi6_conv : Abi6 F
  unfolding derive_conv_shapes
  clf_abi6_conv input output weights in_len out_len w_len =
      if in_len == 0 || (out_len == 0 || w_len == 0)
      then done
      else conv_with input output weights (derive_conv_shapes isqrt in_len out_len w_len)

  -- The division by `m` stands before the test of `m`, and panics where it is zero.
  unfoldable pub clf_abi6_matmul : Abi6 F
  clf_abi6_matmul input output weights in_len out_len w_len =
      let k = isqrt (mul_usize in_len w_len / out_len) in
      let m = in_len / k in
      let n = out_len / m in
      if out_len == 0
      then done
      else if k == 0
      then done
      else if m == 0
      then raise divide_by_zero
      else if n == 0
      then done
      else select (matmul_avx2 fp output input weights m k n)
          (matmul_scalar fp output input weights m k n)

  unfoldable pub clf_abi6_broadcast : Abi6 F
  unfolding clf_simd_broadcast
  clf_abi6_broadcast input output weights in_len out_len w_len =
      if out_len == 0 then done else clf_simd_broadcast output input in_len out_len

  unfoldable pub clf_abi6_expand : Abi6 F
  unfolding clf_simd_expand
  clf_abi6_expand input output weights in_len out_len w_len =
      if out_len == 0 then done else clf_simd_expand output input in_len out_len

  unfoldable pub clf_abi6_min : Abi6 F
  unfolding clf_simd_min
  clf_abi6_min input output weights in_len out_len w_len =
      if in_len == 0 then done else clf_simd_min fp avx2 output input weights in_len

  unfoldable pub clf_abi6_max : Abi6 F
  unfolding clf_simd_max
  clf_abi6_max input output weights in_len out_len w_len =
      if in_len == 0 then done else clf_simd_max fp avx2 output input weights in_len
