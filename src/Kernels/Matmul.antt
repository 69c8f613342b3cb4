-- ===== src/Kernels/Matmul.antt =====
-- kernels/simd/src/lib.rs: products of matrices in row-major order.
pub mod Product
use clf.Prelude.{
  ℕ, ◌+◌, ◌-◌, ◌*◌, Bool, ◌||◌, List, [], ◌∷◌, Action, pure, ◌>>=◌, ◌>>◌, ◌==◌, if◌then◌else◌,
}
use clf.Kernels.Floats.{Floats}
use clf.Kernels.Lanes.{lane_f32, loadu_ps, storeu_ps, set1_ps}
use clf.Kernels.Memory.{Kernel, load, store, for_each, for_range, fold_range, while_blocks, done}

module _ (fp : Floats) where
  open fp use {F, zero_f}

  -- `sum` over `p` of `a[i, p] * b[p, j]`, from the first on
  unfoldable pub dot : (a b k n i j : ℕ) → Kernel F F
  dot a b k n i j = fold_range k 0 zero_f (λ sum p. load (a + (i * k + p)) >>= λ va.
      load (b + (p * n + j)) >>= λ vb. pure (fp.add sum (fp.mul va vb)))

  unfoldable pub matmul_scalar : (out a b m k n : ℕ) → Kernel F (Unit {0})
  matmul_scalar out a b m k n =
      for_each m (λ i. for_each n (λ j. dot a b k n i j >>= λ sum. store (out + (i * n + j)) sum))

  -- `_mm256_fmadd_ps`
  abbrev pub fmadd_ps : List F → List F → List F → List F
  fmadd_ps (a ∷ as') (b ∷ bs) (c ∷ cs) = fp.fma a b c ∷ fmadd_ps as' bs cs
  fmadd_ps _ _ _ = []

  -- Eight columns of a row at once.
  unfoldable pub dot_lanes : (a b k n i j : ℕ) → Kernel F (List F)
  dot_lanes a b k n i j = fold_range k 0 (set1_ps zero_f) (λ acc p. load (a + (i * k + p)) >>= λ va.
      loadu_ps (b + (p * n + j)) >>= λ vb. pure (fmadd_ps (set1_ps va) vb acc))

  unfoldable pub matmul_avx2 : (out a b m k n : ℕ) → Kernel F (Unit {0})
  matmul_avx2 out a b m k n = for_each m (λ i.
      while_blocks (n + 1) lane_f32 0 n
        (λ j. dot_lanes a b k n i j >>= λ acc. storeu_ps (out + (i * n + j)) acc)
      >>= λ last.
          for_range (n - last) last (λ j. dot a b k n i j >>= λ sum. store (out + (i * n + j)) sum))

  unfoldable pub clf_simd_matmul : (avx2 : Bool) (out a b m k n : ℕ) → Kernel F (Unit {0})
  unfolding matmul_scalar matmul_avx2
  clf_simd_matmul avx2 out a b m k n =
      if m == 0 || (n == 0 || k == 0)
      then done
      else if avx2
      then matmul_avx2 out a b m k n
      else matmul_scalar out a b m k n

  unfoldable pub clf_simd_gemm : (avx2 : Bool) (out a b m k n : ℕ) → Kernel F (Unit {0})
  unfolding clf_simd_matmul
  clf_simd_gemm avx2 out a b m k n = clf_simd_matmul avx2 out a b m k n
