-- ===== src/Kernels/Pool.antt =====
-- kernels/simd/src/lib.rs: pooling over images in NCHW order.
use clf.Prelude.{ℕ, ◌+◌, ◌-◌, ◌*◌, ◌/◌, Bool, ◌||◌, pure, ◌>>=◌, ltb, ◌==◌, if◌then◌else◌}
use clf.Kernels.Floats.{Floats}
use clf.Kernels.Lanes.{set1_ps}
use clf.Kernels.Memory.{Kernel, load, store, for_each, fold_range, done}
use clf.Kernels.Reduce.{accumulate, accumulate_lanes, horizontal_sum_avx2, greater_of}

module _ (fp : Floats) where
  open fp use {F, zero_f, one, quarter, of_nat}

  -- The cell of an image of `h * w` cells, in the channel `ci` of `c`
  abbrev pub pixel : (c h w ni ci row col : ℕ) → ℕ
  pixel c h w ni ci row col = ni * c * (h * w) + ci * (h * w) + row * w + col

  -- A fold over the two by two cells of a window, row by row.
  abbrev pub window : (F → F → F) → F → (inp c h w ni ci ho wo : ℕ) → Kernel F F
  window f acc inp c h w ni ci ho wo = fold_range 2 0 acc (λ a dh.
      fold_range 2 0 a
        (λ b dw. load (inp + pixel c h w ni ci (2 * ho + dh) (2 * wo + dw)) >>= λ v. pure (f b v)))

  unfoldable pub max_pool_2x2_scalar : (out inp n c h w : ℕ) → Kernel F (Unit {0})
  max_pool_2x2_scalar out inp n c h w =
      let h_out = h / 2 in
      let w_out = w / 2 in
      for_each n (λ ni. for_each c (λ ci. for_each h_out (λ ho. for_each w_out (λ wo.
        load (inp + pixel c h w ni ci (2 * ho) (2 * wo)) >>= λ first.
        window (greater_of fp) first inp c h w ni ci ho wo >>= λ m.
        store (out + pixel c h_out w_out ni ci ho wo) m))))

  unfoldable pub clf_simd_max_pool : (out inp n c h w : ℕ) → Kernel F (Unit {0})
  unfolding max_pool_2x2_scalar
  clf_simd_max_pool out inp n c h w =
      if n == 0 || (c == 0 || (ltb h 2 || ltb w 2))
      then done
      else max_pool_2x2_scalar out inp n c h w

  unfoldable pub avg_pool_2x2_scalar : (out inp n c h w : ℕ) → Kernel F (Unit {0})
  avg_pool_2x2_scalar out inp n c h w =
      let h_out = h / 2 in
      let w_out = w / 2 in
      for_each n (λ ni. for_each c (λ ci. for_each h_out (λ ho. for_each w_out (λ wo.
        window fp.add zero_f inp c h w ni ci ho wo >>= λ sum.
        store (out + pixel c h_out w_out ni ci ho wo) (fp.mul sum quarter)))))

  unfoldable pub clf_simd_avg_pool : (out inp n c h w : ℕ) → Kernel F (Unit {0})
  unfolding avg_pool_2x2_scalar
  clf_simd_avg_pool out inp n c h w =
      if n == 0 || (c == 0 || (ltb h 2 || ltb w 2))
      then done
      else avg_pool_2x2_scalar out inp n c h w

  unfoldable pub global_max_pool_scalar : (out inp n c h w : ℕ) → Kernel F (Unit {0})
  global_max_pool_scalar out inp n c h w =
      let hw = h * w in
      for_each n (λ ni. for_each c (λ ci.
        let base = ni * (c * hw) + ci * hw in
        load (inp + base) >>= λ first.
        accumulate fp (greater_of fp) first (hw - 1) (inp + base + 1) >>= λ m.
        store (out + (ni * c + ci)) m))

  abbrev no_image : (n c h w : ℕ) → Bool
  no_image n c h w = n == 0 || (c == 0 || (h == 0 || w == 0))

  unfoldable pub clf_simd_global_max_pool : (out inp n c h w : ℕ) → Kernel F (Unit {0})
  unfolding global_max_pool_scalar
  clf_simd_global_max_pool out inp n c h w =
      if no_image n c h w then done else global_max_pool_scalar out inp n c h w

  unfoldable pub global_avg_pool_scalar : (out inp n c h w : ℕ) → Kernel F (Unit {0})
  global_avg_pool_scalar out inp n c h w =
      let hw = h * w in
      for_each n (λ ni. for_each c (λ ci.
        accumulate fp fp.add zero_f hw (inp + (ni * (c * hw) + ci * hw)) >>= λ sum.
        store (out + (ni * c + ci)) (fp.div sum (of_nat hw))))

  unfoldable pub global_avg_pool_avx2 : (out inp n c h w : ℕ) → Kernel F (Unit {0})
  unfolding horizontal_sum_avx2
  global_avg_pool_avx2 out inp n c h w =
      let hw = h * w in
      let inv_hw = fp.div one (of_nat hw) in
      for_each n (λ ni. for_each c (λ ci.
        let base = ni * (c * hw) + ci * hw in
        accumulate_lanes fp fp.add (set1_ps zero_f) 0 hw (inp + base) >>= λ (acc, j).
        accumulate fp fp.add (horizontal_sum_avx2 fp acc) (hw - j) (inp + base + j) >>= λ sum.
        store (out + (ni * c + ci)) (fp.mul sum inv_hw)))

  unfoldable pub clf_simd_global_avg_pool :
      (avx2 : Bool) (out inp n c h w : ℕ) → Kernel F (Unit {0})
  unfolding global_avg_pool_scalar global_avg_pool_avx2
  clf_simd_global_avg_pool avx2 out inp n c h w =
      if no_image n c h w
      then done
      else if avx2
      then global_avg_pool_avx2 out inp n c h w
      else global_avg_pool_scalar out inp n c h w
