-- ===== src/Kernels/Compare/Outputs.antt =====
-- The comparisons in a build with AVX2 and in one without.
use clf.Prelude.{
  ℕ, ◌+◌, ◌*◌, ◌/◌, ◌<◌, ◌≡◌, refl, sym, ap, ◌∙◌, Bool, true, false, ok, ltb, not, ◌||◌,
  if◌then◌else◌,
}
use clf.Kernels.Compare.{compare_float, compare_lane, compare_scalar, compare_avx2}
use clf.Kernels.Elementwise.Agrees.{IsAhead, zip_scalar_lem, zip_avx2_lem}
use clf.Kernels.Floats.{Floats}
use clf.Kernels.Memory.{Memory}
use clf.Kernels.Memory.Fill.{filled-ext, IsMapped}

module _ (fp : Floats) where
  open fp use {F, eq, lt}

  lane-float :
      (op : ℕ) (x y : F)
      → (lt x y || lt y x) ≡ not (eq x y)
      → compare_lane fp op x y ≡ compare_float fp op x y
  lane-float op x y ordered = rw ordered refl

  -- The vector code of every comparison puts out what the scalar code does, where any two cells that
  -- are compared are either equal or one is less than the other, i.e. where neither is a NaN.
  pub compare_avx2-compare_scalar :
      (m : Memory F) (out a b n op : ℕ)
      → IsMapped m out n
      → IsMapped m a n
      → IsMapped m b n
      → IsAhead out a n
      → IsAhead out b n
      → ((k : ℕ)
          → k < n
          → (lt (m.cell (a + k)) (m.cell (b + k)) || lt (m.cell (b + k)) (m.cell (a + k)))
            ≡ not (eq (m.cell (a + k)) (m.cell (b + k))))
      → compare_avx2 fp out a b n op m ≡ compare_scalar fp out a b n op m
  unfolding compare_avx2 compare_scalar
  compare_avx2-compare_scalar m out a b n op to first second ahead_a ahead_b ordered =
      let f = compare_float fp op in
      zip_avx2_lem (compare_lane fp op) f _ (zip_scalar_lem f) m out a b n to first second ahead_a
        ahead_b
      ∙ ap (λ t. (ok tt, t))
          (filled-ext m out _ (λ k. f (m.cell (a + k)) (m.cell (b + k))) n
            (λ k less. pick (ltb k (n / 8 * 8)) (lane-float op _ _ (ordered k less))))
      ∙ sym (zip_scalar_lem f m out a b n to first second ahead_a ahead_b)
    where
      pick : (c : Bool) {u v : F} → u ≡ v → (if c then u else v) ≡ v
      pick true e = e
      pick false e = refl
