-- ===== src/Kernels/Halts/Vectors.antt =====
-- The entry points whose vector code counts blocks of eight: their loops end.
use clf.Prelude.{
  ℕ, ◌+◌, ◌-◌, ◌*◌, refl, Bool, List, pure, ◌>>=◌, ◌>>◌, arith, ◌==◌, ◌||◌, if◌then◌else◌,
}
use clf.Kernels.Arithmetic.{add_scalar, add_avx2, clf_simd_add}
use clf.Kernels.Elementwise.{zip_scalar, zip_avx2}
use clf.Kernels.Floats.{Floats}
use clf.Kernels.Halts.{
  Halts, bind-Halts, if-Halts, pure-Halts, load-Halts, store-Halts, load_n-Halts, store_all-Halts,
  for_range-Halts, fold_range-Halts, while_blocks-Halts, fold_blocks-Halts,
}
use clf.Kernels.Lanes.{zip_with, set1_ps, min_ps, max_ps, lane_f32, loadu_ps, storeu_ps}
use clf.Kernels.Matmul.{dot, dot_lanes, fmadd_ps, matmul_scalar, matmul_avx2, clf_simd_matmul}
use clf.Kernels.Memory.{Kernel, load, store, done, while_blocks, for_each, fold_blocks, fold_range}
use clf.Kernels.Reduce.{
  accumulate, accumulate_lanes, best_of_row, best_of_row_avx2, rows_entry, greater_of, lesser_of,
  reduce_sum_scalar, reduce_mean_scalar, reduce_max_scalar, reduce_min_scalar, reduce_sum_avx2,
  reduce_mean_avx2, reduce_max_avx2, reduce_min_avx2, clf_simd_reduce_sum, clf_simd_reduce_mean,
  clf_simd_reduce_max, clf_simd_reduce_min, horizontal_max_avx2, horizontal_min_avx2,
  horizontal_sum_avx2,
}

module _ {F : Type 0} where
  blocks-Halts :
      (n : ℕ) (body : ℕ → Kernel F (Unit {0}))
      → ((i : ℕ) → Halts (body i))
      → Halts (while_blocks (n + 1) 8 0 n body)
  blocks-Halts n body h =
      while_blocks-Halts (n + 1) 8 0 n body (omega arith) (omega arith) (omega arith) h

  lanes-Halts :
      (start n : ℕ) (acc : List F) (body : List F → ℕ → Kernel F (List F))
      → ((v : List F) (i : ℕ) → Halts (body v i))
      → Halts (fold_blocks (n + 1) 8 start n acc body)
  lanes-Halts start n acc body h =
      fold_blocks-Halts (n + 1) 8 start n acc body (omega arith) (omega arith) (omega arith) h

  store_after :
      {A : Type 0} (k : Kernel F A) (p : ℕ) (f : A → F) → Halts k → Halts (k >>= λ a. store p (f a))
  store_after k p f h = bind-Halts k (λ a. store p (f a)) h (λ a. store-Halts p (f a))

  zip_scalar-Halts : (f : F → F → F) (out a b n : ℕ) → Halts (zip_scalar f out a b n)
  unfolding zip_scalar
  zip_scalar-Halts f out a b n = for_range-Halts n 0 _ (λ i.
      bind-Halts (load (a + i)) _ (load-Halts (a + i))
        (λ va. store_after (load (b + i)) (out + i) (λ vb. f va vb) (load-Halts (b + i))))

  zip_avx2-Halts : (f g : F → F → F) (out a b n : ℕ) → Halts (zip_avx2 f (zip_scalar g) out a b n)
  unfolding zip_avx2
  zip_avx2-Halts f g out a b n =
      bind-Halts
        (while_blocks (n + 1) 8 0 n (λ i. loadu_ps (a + i) >>= λ va.
          loadu_ps (b + i) >>= λ vb. storeu_ps (out + i) (zip_with f va vb)))
        _
        (blocks-Halts n _ (λ i. bind-Halts (loadu_ps (a + i)) _ (load_n-Halts 8 (a + i)) (λ va.
          bind-Halts (loadu_ps (b + i)) _ (load_n-Halts 8 (b + i))
            (λ vb. store_all-Halts (out + i) (zip_with f va vb)))))
        (λ i. zip_scalar-Halts g (out + i) (a + i) (b + i) (n - i))

  accumulate-Halts :
      (f : F → F → F) (acc : F) (n p : ℕ)
      → Halts (fold_range n 0 acc (λ a c. load (p + c) >>= λ v. pure (f a v)))
  accumulate-Halts f acc n p =
      fold_range-Halts n 0 acc (λ a c. load (p + c) >>= λ v. pure (f a v))
        (λ a c.
          bind-Halts (load (p + c)) (λ v. pure (f a v)) (load-Halts (p + c))
            (λ v. pure-Halts (f a v)))

  accumulate_lanes-Halts :
      (f : F → F → F) (acc : List F) (start n p : ℕ)
      → Halts (
          fold_blocks
            (n + 1)
            8
            start
            n
            acc
            (λ a c. loadu_ps (p + c) >>= λ v. pure (zip_with f a v)))
  accumulate_lanes-Halts f acc start n p =
      lanes-Halts start n acc (λ a c. loadu_ps (p + c) >>= λ v. pure (zip_with f a v))
        (λ a c.
          bind-Halts (loadu_ps (p + c)) (λ v. pure (zip_with f a v)) (load_n-Halts 8 (p + c))
            (λ v. pure-Halts (zip_with f a v)))

module _ (fp : Floats) where
  open fp use {F, zero_f, one, of_nat}

  -- The loop of the scalar maximum and minimum.
  best_of_row-Halts :
      (better : F → F → F) (out x rows cols : ℕ) → Halts (best_of_row fp better out x rows cols)
  best_of_row-Halts better out x rows cols = for_range-Halts rows 0 _ (λ r.
      bind-Halts (load (x + r * cols)) _ (load-Halts (x + r * cols)) (λ first.
        store_after (accumulate fp better first (cols - 1) (x + r * cols + 1)) (out + r) (λ m. m)
          (accumulate-Halts better first (cols - 1) (x + r * cols + 1))))

  best_of_row_avx2-Halts :
      (lane better : F → F → F) (across : List F → F) (out x rows cols : ℕ)
      → Halts (best_of_row_avx2 fp lane better across out x rows cols)
  best_of_row_avx2-Halts lane better across out x rows cols = for_range-Halts rows 0 _ (λ r.
      bind-Halts (loadu_ps (x + r * cols)) _ (load_n-Halts 8 (x + r * cols)) (λ first.
        bind-Halts (accumulate_lanes fp lane first 8 cols (x + r * cols)) _
          (accumulate_lanes-Halts lane first 8 cols (x + r * cols))
          (λ p.
            store_after (accumulate fp better (across p.0) (cols - p.1) (x + r * cols + p.1))
              (out + r) (λ m. m)
              (accumulate-Halts better (across p.0) (cols - p.1) (x + r * cols + p.1)))))

  -- The sums of the rows, of which `f` is put out.
  sum_rows-Halts :
      (f : F → F) (out x rows cols : ℕ)
      → Halts (
          for_each rows
            (λ r. accumulate fp fp.add zero_f cols (x + r * cols) >>= λ s. store (out + r) (f s)))
  sum_rows-Halts f out x rows cols = for_range-Halts rows 0 _ (λ r.
      store_after (accumulate fp fp.add zero_f cols (x + r * cols)) (out + r) f
        (accumulate-Halts fp.add zero_f cols (x + r * cols)))

  reduce_sum_avx2-Halts : (out x rows cols : ℕ) → Halts (reduce_sum_avx2 fp out x rows cols)
  unfolding reduce_sum_avx2
  reduce_sum_avx2-Halts out x rows cols = for_range-Halts rows 0 _ (λ r.
      bind-Halts (accumulate_lanes fp fp.add (set1_ps zero_f) 0 cols (x + r * cols)) _
        (accumulate_lanes-Halts fp.add (set1_ps zero_f) 0 cols (x + r * cols))
        (λ p.
          store_after
            (accumulate fp fp.add (horizontal_sum_avx2 fp p.0) (cols - p.1) (x + r * cols + p.1))
            (out + r) (λ s. s)
            (accumulate-Halts fp.add (horizontal_sum_avx2 fp p.0) (cols - p.1)
              (x + r * cols + p.1))))

  reduce_mean_avx2-Halts : (out x rows cols : ℕ) → Halts (reduce_mean_avx2 fp out x rows cols)
  unfolding reduce_mean_avx2
  reduce_mean_avx2-Halts out x rows cols =
      bind-Halts (reduce_sum_avx2 fp out x rows cols >> scaled) _
        (bind-Halts (reduce_sum_avx2 fp out x rows cols) (λ t. scaled)
          (reduce_sum_avx2-Halts out x rows cols)
          (λ t. blocks-Halts rows _ (λ r.
            bind-Halts (loadu_ps (out + r)) _ (load_n-Halts 8 (out + r))
              (λ v. store_all-Halts (out + r) (zip_with fp.mul v (set1_ps inv))))))
        (λ r. for_range-Halts (rows - r) r _ (λ rr.
          store_after (load (out + rr)) (out + rr) (λ v. fp.mul v inv) (load-Halts (out + rr))))
    where
      inv : F
      inv = fp.div one (of_nat cols)

      scaled : Kernel F ℕ
      scaled =
          while_blocks (rows + 1) lane_f32 0 rows
            (λ r. loadu_ps (out + r) >>= λ v. storeu_ps (out + r) (zip_with fp.mul v (set1_ps inv)))

  -- In either build, none of the reductions of rows runs out of fuel, over any memory: their loops by
  -- blocks of eight end within one round more than there are columns, or rows.
  pub clf_simd_reduce-Halts :
      (avx2 : Bool) (out x rows cols : ℕ)
      → Halts (clf_simd_reduce_sum fp avx2 out x rows cols)
        × Halts (clf_simd_reduce_mean fp avx2 out x rows cols)
        × Halts (clf_simd_reduce_max fp avx2 out x rows cols)
        × Halts (clf_simd_reduce_min fp avx2 out x rows cols)
  unfolding clf_simd_reduce_sum clf_simd_reduce_mean clf_simd_reduce_max clf_simd_reduce_min
      reduce_sum_scalar reduce_mean_scalar reduce_max_scalar reduce_min_scalar reduce_max_avx2
      reduce_min_avx2
  clf_simd_reduce-Halts avx2 out x rows cols = (
    either (reduce_sum_avx2 fp out x rows cols) (reduce_sum_scalar fp out x rows cols)
        (reduce_sum_avx2-Halts out x rows cols) (sum_rows-Halts (λ s. s) out x rows cols),
    either (reduce_mean_avx2 fp out x rows cols) (reduce_mean_scalar fp out x rows cols)
        (reduce_mean_avx2-Halts out x rows cols)
        (sum_rows-Halts (λ s. fp.mul s (fp.div one (of_nat cols))) out x rows cols),
    either (reduce_max_avx2 fp out x rows cols) (reduce_max_scalar fp out x rows cols)
        (best_of_row_avx2-Halts (max_ps fp) (greater_of fp) (horizontal_max_avx2 fp) out x rows
          cols)
        (best_of_row-Halts (greater_of fp) out x rows cols),
    either (reduce_min_avx2 fp out x rows cols) (reduce_min_scalar fp out x rows cols)
        (best_of_row_avx2-Halts (min_ps fp) (lesser_of fp) (horizontal_min_avx2 fp) out x rows cols)
        (best_of_row-Halts (lesser_of fp) out x rows cols),
  )
    where
      either :
          (vector scalar : Kernel F (Unit {0}))
          → Halts vector
          → Halts scalar
          → Halts (rows_entry fp avx2 rows cols vector scalar)
      either vector scalar v s =
          if-Halts (rows == 0 || cols == 0) done (if avx2 then vector else scalar) (λ m. refl)
            (if-Halts avx2 vector scalar v s)

  dot-Halts : (a b k n i j : ℕ) → Halts (dot fp a b k n i j)
  unfolding dot
  dot-Halts a b k n i j = fold_range-Halts k 0 zero_f _ (λ sum p.
      bind-Halts (load (a + (i * k + p))) _ (load-Halts (a + (i * k + p))) (λ va.
        bind-Halts (load (b + (p * n + j))) (λ vb. pure (fp.add sum (fp.mul va vb)))
          (load-Halts (b + (p * n + j))) (λ vb m. refl)))

  dot_lanes-Halts : (a b k n i j : ℕ) → Halts (dot_lanes fp a b k n i j)
  unfolding dot_lanes
  dot_lanes-Halts a b k n i j = fold_range-Halts k 0 (set1_ps zero_f) _ (λ acc p.
      bind-Halts (load (a + (i * k + p))) _ (load-Halts (a + (i * k + p))) (λ va.
        bind-Halts (loadu_ps (b + (p * n + j))) (λ vb. pure (fmadd_ps fp (set1_ps va) vb acc))
          (load_n-Halts 8 (b + (p * n + j))) (λ vb m. refl)))

  dot_stored :
      (out a b k n i j : ℕ) → Halts (dot fp a b k n i j >>= λ sum. store (out + (i * n + j)) sum)
  dot_stored out a b k n i j =
      store_after (dot fp a b k n i j) (out + (i * n + j)) (λ s. s) (dot-Halts a b k n i j)

  -- In either build, the sum of buffers and the matrix product do not run out of fuel, over any memory:
  -- their loops by blocks of eight end within one round more than there are floats, or columns.
  pub clf_simd_matmul-Halts :
      (avx2 : Bool) (out a b m k n : ℕ)
      → Halts (clf_simd_add fp avx2 out a b n) × Halts (clf_simd_matmul fp avx2 out a b m k n)
  unfolding clf_simd_add add_scalar add_avx2 clf_simd_matmul matmul_scalar matmul_avx2
  clf_simd_matmul-Halts avx2 out a b m k n = (
    if-Halts (n == 0) done (if avx2 then add_avx2 fp out a b n else add_scalar fp out a b n)
        (λ s. refl)
        (if-Halts avx2 (add_avx2 fp out a b n) (add_scalar fp out a b n)
          (zip_avx2-Halts fp.add fp.add out a b n) (zip_scalar-Halts fp.add out a b n)),
    if-Halts (m == 0 || (n == 0 || k == 0)) done
        (if avx2 then matmul_avx2 fp out a b m k n else matmul_scalar fp out a b m k n) (λ s. refl)
        (if-Halts avx2 (matmul_avx2 fp out a b m k n) (matmul_scalar fp out a b m k n)
          (for_range-Halts m 0 _ (λ i.
            bind-Halts
              (while_blocks (n + 1) 8 0 n
                (λ j. dot_lanes fp a b k n i j >>= λ acc. storeu_ps (out + (i * n + j)) acc))
              _
              (blocks-Halts n _ (λ j.
                bind-Halts (dot_lanes fp a b k n i j) _ (dot_lanes-Halts a b k n i j)
                  (λ acc. store_all-Halts (out + (i * n + j)) acc)))
              (λ last. for_range-Halts (n - last) last _ (λ j. dot_stored out a b k n i j))))
          (for_range-Halts m 0 _ (λ i. for_range-Halts n 0 _ (λ j. dot_stored out a b k n i j)))),
  )
