-- ===== src/Kernels/Arithmetic/Outputs.antt =====
-- What the kernels of arithmetic put out, in a build with AVX2 and in one without.
use clf.Prelude.{
  ℕ, ◌+◌, ◌*◌, ◌/◌, ◌<◌, ◌≤◌, ◌≡◌, ◌⊎◌, refl, sym, ap, ◌∙◌, Bool, true, false, ok, arith, ltb, ◌==◌,
  ==_iff, inl, inr, if◌then◌else◌, Bool-cases, ◌>>=◌,
}
use clf.Kernels.Arithmetic.{
  clf_simd_add, clf_simd_subtract, clf_simd_multiply, clf_simd_relu, clf_simd_abs, divide_scalar,
  divide_avx2, divide, quotient, min_avx2, relu, relu_lane,
}
use clf.Kernels.Elementwise.{entry, map_scalar, map_avx2, zip_scalar, zip_avx2}
use clf.Kernels.Elementwise.Agrees.{
  IsAhead, Zips, zip_scalar_lem, map_scalar_lem, zip_avx2_lem, zip_avx2-Zips, map_avx2-Maps,
}
use clf.Kernels.Floats.{Floats}
use clf.Kernels.Memory.{Memory, Kernel, load, store}
use clf.Kernels.Memory.Fill.{
  filled, filled-zero, IsMapped, load-filled, store-filled, for_each_fill,
}

module _ {F : Type 0} where
  -- An entry point does what both of its loops do.
  pub entry_lem :
      (avx2 : Bool) (m : Memory F) (out n : ℕ) (g : ℕ → F) (vector scalar : Kernel F (Unit {0}))
      → vector m ≡ (ok tt, filled m out g n)
      → scalar m ≡ (ok tt, filled m out g n)
      → entry avx2 n vector scalar m ≡ (ok tt, filled m out g n)
  entry_lem avx2 m out n g vector scalar v s = elim (Bool-cases (n == 0)) [
    | inl empty ↦
        let e : n ≡ 0 = (==_iff n 0).0 empty in
        rw empty (ap (λ t. (ok tt, t)) (sym (filled-zero m out g) ∙ ap (filled m out g) (sym e)))
    | inr more ↦ rw more (selected avx2)
  ]
    where
      selected : (b : Bool) → (if b then vector else scalar) m ≡ (ok tt, filled m out g n)
      selected true = v
      selected false = s

module _ (fp : Floats) where
  open fp use {F, zero_f, eq, lt}

  -- Addition, subtraction and multiplication put out the sum, the difference and the product of the
  -- cells at each index and change nothing else, in either build. The output may be an input, or
  -- start before it, or lie behind its end.
  pub clf_simd_add-filled :
      (avx2 : Bool) (m : Memory F) (out a b n : ℕ)
      → IsMapped m out n
      → IsMapped m a n
      → IsMapped m b n
      → IsAhead out a n
      → IsAhead out b n
      → (clf_simd_add fp avx2 out a b n m
          ≡ (ok tt, filled m out (λ k. fp.add (m.cell (a + k)) (m.cell (b + k))) n))
        × (clf_simd_subtract fp avx2 out a b n m
            ≡ (ok tt, filled m out (λ k. fp.sub (m.cell (a + k)) (m.cell (b + k))) n))
        × (clf_simd_multiply fp avx2 out a b n m
            ≡ (ok tt, filled m out (λ k. fp.mul (m.cell (a + k)) (m.cell (b + k))) n))
  unfolding clf_simd_add clf_simd_subtract clf_simd_multiply
  clf_simd_add-filled avx2 m out a b n to first second ahead_a ahead_b =
      (both fp.add, both fp.sub, both fp.mul)
    where
      both :
          (f : F → F → F)
          → entry avx2 n (zip_avx2 f (zip_scalar f) out a b n) (zip_scalar f out a b n) m
            ≡ (ok tt, filled m out (λ k. f (m.cell (a + k)) (m.cell (b + k))) n)
      both f =
          entry_lem avx2 m out n (λ k. f (m.cell (a + k)) (m.cell (b + k)))
            (zip_avx2 f (zip_scalar f) out a b n) (zip_scalar f out a b n)
            (zip_avx2-Zips f f (zip_scalar f) (zip_scalar_lem f) (λ x y. refl) m out a b n to first
              second ahead_a ahead_b)
            (zip_scalar_lem f m out a b n to first second ahead_a ahead_b)

  -- ReLU puts out each cell, or zero where it is not above zero, and Abs its absolute value, in either
  -- build; nothing else changes.
  pub clf_simd_relu-filled :
      (avx2 : Bool) (m : Memory F) (out x n : ℕ)
      → IsMapped m out n
      → IsMapped m x n
      → IsAhead out x n
      → (clf_simd_relu fp avx2 out x n m ≡ (
        ok tt,
        filled m out (λ k. if lt zero_f (m.cell (x + k)) then m.cell (x + k) else zero_f) n,
      ))
        × (clf_simd_abs fp avx2 out x n m ≡ (ok tt, filled m out (λ k. fp.abs (m.cell (x + k))) n))
  unfolding clf_simd_relu clf_simd_abs
  clf_simd_relu-filled avx2 m out x n to from ahead =
      (both (relu_lane fp) (relu fp) (λ v. refl), both fp.abs fp.abs (λ v. refl))
    where
      both :
          (lane f : F → F)
          → ((v : F) → lane v ≡ f v)
          → entry avx2 n (map_avx2 lane (map_scalar f) out x n) (map_scalar f out x n) m
            ≡ (ok tt, filled m out (λ k. f (m.cell (x + k))) n)
      both lane f same =
          entry_lem avx2 m out n (λ k. f (m.cell (x + k))) (map_avx2 lane (map_scalar f) out x n)
            (map_scalar f out x n) (map_avx2-Maps lane f same m out x n to from ahead)
            (map_scalar_lem f m out x n to from ahead)

  -- A zero divisor gives zero.
  divide_scalar-Zips : Zips (divide fp) (divide_scalar fp)
  unfolding divide_scalar
  divide_scalar-Zips m out a b n to first second ahead_a ahead_b =
      let g : ℕ → F = λ k. divide fp (m.cell (a + k)) (m.cell (b + k)) in
      for_each_fill m out g
        (λ i. load (b + i) >>= λ bv. quotient fp (a + i) bv >>= λ v. store (out + i) v) n
        (λ k lt.
          let before_a : (a + k < out) ⊎ (out + k ≤ a + k) = ground (arith, ahead_a) in
          let before_b : (b + k < out) ⊎ (out + k ≤ b + k) = ground (arith, ahead_b) in
          let next : (v : F)
              → v ≡ g k
              → store (out + k) v (filled m out g k) ≡ (ok tt, filled m out g (k + 1)) =
            λ v e. store-filled m out g k v e (to (out + k) (omega arith) (omega arith)) in
          rw (load-filled m out g k (b + k) before_b (second (b + k) (omega arith) (omega arith)))
            (elim (Bool-cases (eq (m.cell (b + k)) zero_f)) [
              | inl none_to_divide ↦ rw none_to_divide (next zero_f (rw none_to_divide refl))
              | inr some_to_divide ↦
                  rw
                    (
                      some_to_divide,
                      load-filled m out g k (a + k) before_a
                          (first (a + k) (omega arith) (omega arith)),
                    )
                    (next _ (rw some_to_divide refl))
            ]))

  -- In the AVX2 build the cells of the whole blocks of eight are put out as the intrinsics do: the
  -- quotient also for a zero divisor, and the second operand where none is less, as with a NaN. Only
  -- the last `n % 8` cells go by the scalar code: zero for a zero divisor, and `f32::min`.
  pub divide_avx2-filled :
      (m : Memory F) (out a b n : ℕ)
      → IsMapped m out n
      → IsMapped m a n
      → IsMapped m b n
      → IsAhead out a n
      → IsAhead out b n
      → (divide_avx2 fp out a b n m ≡ (
        ok tt,
        filled m out
            (λ k.
              if ltb k (n / 8 * 8)
              then fp.div (m.cell (a + k)) (m.cell (b + k))
              else if eq (m.cell (b + k)) zero_f
              then zero_f
              else fp.div (m.cell (a + k)) (m.cell (b + k)))
            n,
      ))
        × (min_avx2 fp out a b n m ≡ (
          ok tt,
          filled m out
              (λ k.
                if ltb k (n / 8 * 8)
                then (if lt (m.cell (a + k)) (m.cell (b + k))
                    then m.cell (a + k)
                    else m.cell (b + k))
                else fp.minimum (m.cell (a + k)) (m.cell (b + k)))
              n,
        ))
  unfolding divide_avx2 min_avx2
  divide_avx2-filled m out a b n to first second ahead_a ahead_b = (
    zip_avx2_lem fp.div (divide fp) (divide_scalar fp) divide_scalar-Zips m out a b n to first
        second ahead_a ahead_b,
    zip_avx2_lem (λ x y. if lt x y then x else y) fp.minimum (zip_scalar fp.minimum)
        (zip_scalar_lem fp.minimum) m out a b n to first second ahead_a ahead_b,
  )
