-- ===== src/Kernels/Normalize.antt =====
-- kernels/simd/src/lib.rs: batch and layer normalization, softmax and its logarithm.
use clf.Prelude.{ℕ, ◌+◌, ◌-◌, ◌*◌, ◌/◌, Bool, ◌||◌, pure, ◌>>=◌, ◌>>◌, ◌==◌, if◌then◌else◌}
use clf.Kernels.Floats.{Floats}
use clf.Kernels.Lanes.{lane_f32, loadu_ps, storeu_ps, set1_ps, zip_with}
use clf.Kernels.Memory.{Kernel, load, store, for_each, for_range, fold_range, while_blocks, done}
use clf.Kernels.Reduce.{accumulate, greater_of}

module _ (fp : Floats) where
  open fp use {F, zero_f, one, norm_eps, log_floor, lt, of_nat}

  unfoldable pub batchnorm_scalar : (out x scale bias mean var n c h w : ℕ) → Kernel F (Unit {0})
  batchnorm_scalar out x scale bias mean var n c h w =
      let hw = h * w in
      let chw = c * hw in
      for_each n (λ ni. for_each c (λ ci. load (scale + ci) >>= λ sc. load (bias + ci) >>= λ bi.
      load (mean + ci) >>= λ me. load (var + ci) >>= λ va.
      let inv_std = fp.div one (fp.sqrt (fp.add va norm_eps)) in
      let base = ni * chw + ci * hw in
      for_each hw (λ j. load (x + (base + j)) >>= λ v.
      store (out + (base + j)) (fp.add (fp.mul (fp.mul sc (fp.sub v me)) inv_std) bi))))

  -- The last cells of a row divide by the root, where the vectors multiply by its inverse.
  unfoldable pub batchnorm_avx2 : (out x scale bias mean var n c h w : ℕ) → Kernel F (Unit {0})
  batchnorm_avx2 out x scale bias mean var n c h w =
      let hw = h * w in
      let chw = c * hw in
      for_each n (λ ni. for_each c (λ ci. load (scale + ci) >>= λ sc. load (bias + ci) >>= λ bi.
      load (mean + ci) >>= λ me. load (var + ci) >>= λ va0.
      let va = fp.add va0 norm_eps in
      let inv_std = fp.div one (fp.sqrt va) in
      let base = ni * chw + ci * hw in
      while_blocks (hw + 1) lane_f32 0 hw (λ j. loadu_ps (x + (base + j)) >>= λ v.
      let t =
        zip_with fp.mul (zip_with fp.mul (zip_with fp.sub v (set1_ps me)) (set1_ps inv_std))
          (set1_ps sc) in
      storeu_ps (out + (base + j)) (zip_with fp.add t (set1_ps bi)))
      >>= λ j. for_range (hw - j) j (λ jj. load (x + (base + jj)) >>= λ v.
          load (scale + ci) >>= λ sc'. load (mean + ci) >>= λ me'. load (bias + ci) >>= λ bi'.
          store (out + (base + jj))
            (fp.add (fp.div (fp.mul sc' (fp.sub v me')) (fp.sqrt va)) bi'))))

  unfoldable pub clf_simd_batchnorm :
      (avx2 : Bool) (out x scale bias mean var n c h w : ℕ) → Kernel F (Unit {0})
  unfolding batchnorm_scalar batchnorm_avx2
  clf_simd_batchnorm avx2 out x scale bias mean var n c h w =
      if n == 0 || (c == 0 || (h == 0 || w == 0))
      then done
      else if avx2
      then batchnorm_avx2 out x scale bias mean var n c h w
      else batchnorm_scalar out x scale bias mean var n c h w

  -- The mean of `c` cells, and their variance with `LN_EPS` added.
  unfoldable pub moments : (p c : ℕ) → Kernel F (F × F)
  moments p c = accumulate fp fp.add zero_f c p >>= λ total.
      let mean = fp.div total (of_nat c) in
      fold_range c 0 zero_f
        (λ var i. load (p + i) >>= λ v. let d = fp.sub v mean in pure (fp.add var (fp.mul d d)))
      >>= λ var. pure (mean, fp.add (fp.div var (of_nat c)) norm_eps)

  -- `(*x - mean) * inv_std * *scale + *bias`, for one cell
  unfoldable pub layernorm_cell :
      (out x scale bias base : ℕ) → (mean inv_std : F) → ℕ → Kernel F (Unit {0})
  layernorm_cell out x scale bias base mean inv_std i = load (x + (base + i)) >>= λ v.
      load (scale + i) >>= λ sc. load (bias + i) >>= λ bi.
      store (out + (base + i)) (fp.add (fp.mul (fp.mul (fp.sub v mean) inv_std) sc) bi)

  unfoldable pub layernorm_scalar : (out x scale bias count c : ℕ) → Kernel F (Unit {0})
  layernorm_scalar out x scale bias count c = for_each (count / c) (λ r.
      let base = r * c in
      moments (x + base) c >>= λ (mean, var).
      let inv_std = fp.div one (fp.sqrt var) in
      for_each c (λ i. layernorm_cell out x scale bias base mean inv_std i))

  unfoldable pub layernorm_avx2 : (out x scale bias count c : ℕ) → Kernel F (Unit {0})
  layernorm_avx2 out x scale bias count c = for_each (count / c) (λ r.
      let base = r * c in
      moments (x + base) c >>= λ (mean, var).
      let inv_std = fp.div one (fp.sqrt var) in
      while_blocks (c + 1) lane_f32 0 c (λ i. loadu_ps (x + (base + i)) >>= λ v.
      loadu_ps (scale + i) >>= λ sc. loadu_ps (bias + i) >>= λ bi.
      let n =
        zip_with fp.mul (zip_with fp.mul (zip_with fp.sub v (set1_ps mean)) (set1_ps inv_std)) sc in
      storeu_ps (out + (base + i)) (zip_with fp.add n bi))
      >>= λ i. for_range (c - i) i (λ ii. layernorm_cell out x scale bias base mean inv_std ii))

  unfoldable pub clf_simd_layernorm :
      (avx2 : Bool) (out x scale bias count c : ℕ) → Kernel F (Unit {0})
  unfolding layernorm_scalar layernorm_avx2
  clf_simd_layernorm avx2 out x scale bias count c =
      if count == 0 || c == 0
      then done
      else if avx2
      then layernorm_avx2 out x scale bias count c
      else layernorm_scalar out x scale bias count c

  -- The greatest cell of a row.
  unfoldable pub row_max : (p cols : ℕ) → Kernel F F
  row_max p cols = load p >>= λ first. accumulate fp (greater_of fp) first (cols - 1) (p + 1)

  -- The exponentials of a row less its greatest cell are put out, and their sum is kept.
  unfoldable pub exp_row : (out p cols : ℕ) → F → Kernel F F
  exp_row out p cols max_x = fold_range cols 0 zero_f (λ sum c. load (p + c) >>= λ v.
      let e = fp.exp (fp.sub v max_x) in store (out + c) e >> pure (fp.add sum e))

  unfoldable pub softmax_scalar : (out x rows cols : ℕ) → Kernel F (Unit {0})
  unfolding row_max exp_row
  softmax_scalar out x rows cols = for_each rows (λ r.
      let base = r * cols in
      row_max (x + base) cols >>= λ max_x. exp_row (out + base) (x + base) cols max_x >>= λ sum.
      let inv_sum = fp.div one sum in
      for_each cols
        (λ c. load (out + (base + c)) >>= λ e. store (out + (base + c)) (fp.mul e inv_sum)))

  unfoldable pub clf_simd_softmax : (out x rows cols : ℕ) → Kernel F (Unit {0})
  unfolding softmax_scalar
  clf_simd_softmax out x rows cols =
      if rows == 0 || cols == 0 then done else softmax_scalar out x rows cols

  unfoldable pub log_softmax_scalar : (out x rows cols : ℕ) → Kernel F (Unit {0})
  unfolding row_max exp_row
  log_softmax_scalar out x rows cols = for_each rows (λ r.
      let base = r * cols in
      row_max (x + base) cols >>= λ max_x. exp_row (out + base) (x + base) cols max_x >>= λ sum.
      let log_sum = if lt zero_f sum then fp.ln sum else log_floor in
      for_each cols (λ c.
        load (x + (base + c)) >>= λ v. store (out + (base + c)) (fp.sub (fp.sub v max_x) log_sum)))

  unfoldable pub clf_simd_log_softmax : (out x rows cols : ℕ) → Kernel F (Unit {0})
  unfolding log_softmax_scalar
  clf_simd_log_softmax out x rows cols =
      if rows == 0 || cols == 0 then done else log_softmax_scalar out x rows cols
