-- ===== src/Kernels/Reduce.antt =====
-- kernels/simd/src/lib.rs: the reductions over the last dimension, and the horizontal steps of AVX2.
pub mod Short
pub mod Rows
pub mod Greatest
pub mod Least
use clf.Prelude.{
  ℕ, ◌+◌, ◌-◌, ◌*◌, Bool, ◌||◌, List, map, Action, pure, ◌>>=◌, ◌>>◌, ltb, ◌==◌, if◌then◌else◌,
}
use clf.Kernels.Floats.{Floats}
use clf.Kernels.Lanes.{lane_f32, loadu_ps, storeu_ps, zip_with, set1_ps, horizontal, min_ps, max_ps}
use clf.Kernels.Memory.{
  Kernel, load, store, for_each, for_range, fold_range, while_blocks, fold_blocks, done,
}

module _ (fp : Floats) where
  open fp use {F, zero_f, one, lt, of_nat}

  unfoldable pub horizontal_sum_avx2 : List F → F
  unfolding horizontal
  horizontal_sum_avx2 v = horizontal zero_f fp.add v

  unfoldable pub horizontal_max_avx2 : List F → F
  unfolding horizontal
  horizontal_max_avx2 v = horizontal zero_f (max_ps fp) v

  unfoldable pub horizontal_min_avx2 : List F → F
  unfolding horizontal
  horizontal_min_avx2 v = horizontal zero_f (min_ps fp) v

  -- `if v > m { m = v; }` and `if v < m { m = v; }`
  abbrev pub greater_of : F → F → F
  greater_of m v = if lt m v then v else m

  abbrev pub lesser_of : F → F → F
  lesser_of m v = if lt v m then v else m

  -- A local variable updated with `n` cells from `p` on.
  abbrev pub accumulate : (F → F → F) → F → (n p : ℕ) → Kernel F F
  accumulate f acc n p = fold_range n 0 acc (λ a c. load (p + c) >>= λ v. pure (f a v))

  unfoldable pub reduce_sum_scalar : (out x rows cols : ℕ) → Kernel F (Unit {0})
  reduce_sum_scalar out x rows cols =
      for_each rows (λ r. accumulate fp.add zero_f cols (x + r * cols) >>= λ s. store (out + r) s)

  unfoldable pub reduce_prod_scalar : (out x rows cols : ℕ) → Kernel F (Unit {0})
  reduce_prod_scalar out x rows cols =
      for_each rows (λ r. accumulate fp.mul one cols (x + r * cols) >>= λ s. store (out + r) s)

  unfoldable pub reduce_mean_scalar : (out x rows cols : ℕ) → Kernel F (Unit {0})
  reduce_mean_scalar out x rows cols =
      let inv = fp.div one (of_nat cols) in
      for_each rows
        (λ r. accumulate fp.add zero_f cols (x + r * cols) >>= λ s. store (out + r) (fp.mul s inv))

  -- The loops of the maximum and the minimum start with the first cell of the row.
  abbrev pub best_of_row : (F → F → F) → (out x rows cols : ℕ) → Kernel F (Unit {0})
  best_of_row better out x rows cols = for_each rows (λ r. load (x + r * cols) >>= λ first.
      accumulate better first (cols - 1) (x + r * cols + 1) >>= λ m. store (out + r) m)

  unfoldable pub reduce_max_scalar : (out x rows cols : ℕ) → Kernel F (Unit {0})
  reduce_max_scalar out x rows cols = best_of_row greater_of out x rows cols

  unfoldable pub reduce_min_scalar : (out x rows cols : ℕ) → Kernel F (Unit {0})
  reduce_min_scalar out x rows cols = best_of_row lesser_of out x rows cols

  -- `acc` updated with whole vectors of a row from `start` on
  abbrev pub accumulate_lanes : (F → F → F) → List F → (start cols p : ℕ) → Kernel F (List F × ℕ)
  accumulate_lanes f acc start cols p =
      fold_blocks (cols + 1) lane_f32 start cols acc
        (λ a c. loadu_ps (p + c) >>= λ v. pure (zip_with f a v))

  unfoldable pub reduce_sum_avx2 : (out x rows cols : ℕ) → Kernel F (Unit {0})
  unfolding horizontal_sum_avx2
  reduce_sum_avx2 out x rows cols = for_each rows (λ r.
      accumulate_lanes fp.add (set1_ps zero_f) 0 cols (x + r * cols) >>= λ (acc, c).
      accumulate fp.add (horizontal_sum_avx2 acc) (cols - c) (x + r * cols + c) >>= λ s.
      store (out + r) s)

  unfoldable pub reduce_mean_avx2 : (out x rows cols : ℕ) → Kernel F (Unit {0})
  unfolding reduce_sum_avx2
  reduce_mean_avx2 out x rows cols =
      let inv = fp.div one (of_nat cols) in
      reduce_sum_avx2 out x rows cols
      >> while_blocks (rows + 1) lane_f32 0 rows
          (λ r. loadu_ps (out + r) >>= λ v. storeu_ps (out + r) (zip_with fp.mul v (set1_ps inv)))
      >>= λ r.
          for_range (rows - r) r (λ rr. load (out + rr) >>= λ v. store (out + rr) (fp.mul v inv))

  -- The first vector of a row is read before it is known that the row has one.
  abbrev pub best_of_row_avx2 :
      (lane better : F → F → F) → (List F → F) → (out x rows cols : ℕ) → Kernel F (Unit {0})
  best_of_row_avx2 lane better across out x rows cols = for_each rows (λ r.
      loadu_ps (x + r * cols) >>= λ first.
      accumulate_lanes lane first lane_f32 cols (x + r * cols) >>= λ (acc, c).
      accumulate better (across acc) (cols - c) (x + r * cols + c) >>= λ m. store (out + r) m)

  unfoldable pub reduce_max_avx2 : (out x rows cols : ℕ) → Kernel F (Unit {0})
  unfolding horizontal_max_avx2
  reduce_max_avx2 out x rows cols =
      best_of_row_avx2 (max_ps fp) greater_of horizontal_max_avx2 out x rows cols

  unfoldable pub reduce_min_avx2 : (out x rows cols : ℕ) → Kernel F (Unit {0})
  unfolding horizontal_min_avx2
  reduce_min_avx2 out x rows cols =
      best_of_row_avx2 (min_ps fp) lesser_of horizontal_min_avx2 out x rows cols

  -- The body of the entry points.
  abbrev pub rows_entry :
      (avx2 : Bool) (rows cols : ℕ) (vector scalar : Kernel F (Unit {0})) → Kernel F (Unit {0})
  rows_entry avx2 rows cols vector scalar =
      if rows == 0 || cols == 0 then done else if avx2 then vector else scalar

  unfoldable pub clf_simd_reduce_prod : (out x rows cols : ℕ) → Kernel F (Unit {0})
  unfolding reduce_prod_scalar
  clf_simd_reduce_prod out x rows cols =
      if rows == 0 || cols == 0 then done else reduce_prod_scalar out x rows cols

  unfoldable pub clf_simd_reduce_sum : (avx2 : Bool) (out x rows cols : ℕ) → Kernel F (Unit {0})
  unfolding reduce_sum_scalar reduce_sum_avx2
  clf_simd_reduce_sum avx2 out x rows cols =
      rows_entry avx2 rows cols (reduce_sum_avx2 out x rows cols)
        (reduce_sum_scalar out x rows cols)

  unfoldable pub clf_simd_reduce_mean : (avx2 : Bool) (out x rows cols : ℕ) → Kernel F (Unit {0})
  unfolding reduce_mean_scalar reduce_mean_avx2
  clf_simd_reduce_mean avx2 out x rows cols =
      rows_entry avx2 rows cols (reduce_mean_avx2 out x rows cols)
        (reduce_mean_scalar out x rows cols)

  unfoldable pub clf_simd_reduce_max : (avx2 : Bool) (out x rows cols : ℕ) → Kernel F (Unit {0})
  unfolding reduce_max_scalar reduce_max_avx2
  clf_simd_reduce_max avx2 out x rows cols =
      rows_entry avx2 rows cols (reduce_max_avx2 out x rows cols)
        (reduce_max_scalar out x rows cols)

  unfoldable pub clf_simd_reduce_min : (avx2 : Bool) (out x rows cols : ℕ) → Kernel F (Unit {0})
  unfolding reduce_min_scalar reduce_min_avx2
  clf_simd_reduce_min avx2 out x rows cols =
      rows_entry avx2 rows cols (reduce_min_avx2 out x rows cols)
        (reduce_min_scalar out x rows cols)
