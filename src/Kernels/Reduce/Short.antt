-- ===== src/Kernels/Reduce/Short.antt =====
-- The vector reductions over rows that are shorter than a vector.
use clf.Prelude.{ℕ, zero, suc, ◌+◌, ◌*◌, ◌<◌, ◌≡◌, refl, true, false, ok, err, arith}
use clf.Kernels.Floats.{Floats}
use clf.Kernels.Memory.{Memory, unmapped, load, load_n, for_range}
use clf.Kernels.Memory.Fill.{IsMapped}
use clf.Kernels.Reduce.{reduce_max_avx2, reduce_min_avx2}

module _ {F : Type 0} where
  load_hit : (p : ℕ) (m : Memory F) → m.mapped p ≡ true → load p m ≡ (ok (m.cell p), m)
  unfolding load
  load_hit p m h = rw h

  load_miss : (p : ℕ) (m : Memory F) → m.mapped p ≡ false → load p m ≡ (err (unmapped p), m)
  unfolding load
  load_miss p m h = rw h

  -- A vector that begins `k` cells before the end of the memory.
  load_n_miss :
      (n k p : ℕ) (m : Memory F)
      → k < n
      → IsMapped m p k
      → m.mapped (p + k) ≡ false
      → load_n n p m ≡ (err (unmapped (p + k)), m)
  unfolding load_n
  load_n_miss zero k p m lt mapped end = absurd (omega arith)
  load_n_miss (suc n) zero p m lt mapped end =
      let same : p + 0 ≡ p = omega arith in rw (same, load_miss p m (rw same at end))
  load_n_miss (suc n) (suc k) p m lt mapped end =
      let shift : p + suc k ≡ p + 1 + k = omega arith in
      rw
        (
          shift,
          load_hit p m (mapped p (omega arith) (omega arith)),
          load_n_miss n k (p + 1) m (omega arith)
              (λ q low high. mapped q (omega arith) (omega arith)) (rw shift at end),
        )
        refl

module _ (fp : Floats) where
  -- The maximum and the minimum in the AVX2 build read eight cells of the first row, however short it
  -- is: over an input of fewer than eight cells that stands at the end of its memory they fault at
  -- the first cell behind it, and nothing is put out.
  pub reduce_max_avx2-unmapped :
      (m : Memory fp.F) (out x rows cols : ℕ)
      → 0 < rows
      → rows * cols < 8
      → IsMapped m x (rows * cols)
      → m.mapped (x + rows * cols) ≡ false
      → (reduce_max_avx2 fp out x rows cols m ≡ (err (unmapped (x + rows * cols)), m))
        × (reduce_min_avx2 fp out x rows cols m ≡ (err (unmapped (x + rows * cols)), m))
  unfolding reduce_max_avx2 reduce_min_avx2 for_range
  reduce_max_avx2-unmapped m out x zero cols pos short mapped end = absurd (omega arith)
  reduce_max_avx2-unmapped m out x (suc rows) cols pos short mapped end =
      let start : x + 0 * cols ≡ x = omega arith in
      let miss = load_n_miss 8 (suc rows * cols) x m short mapped end in
      (rw (start, miss) refl, rw (start, miss) refl)
