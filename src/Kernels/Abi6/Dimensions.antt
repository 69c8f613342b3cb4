-- ===== src/Kernels/Abi6/Dimensions.antt =====
-- The dimensions that the 6-argument matrix product derives from the lengths of its buffers.
use native.Mathlib.Nat.{
  mod-eq_of_lt, mul-div_cancel, mul-div_cancel_left, mul-pos, div-eq_of_lt, le-div_iff_mul-le,
  div-lt_iff_lt-mul, lt_of_le_of_lt, mul-le-mul,
}
use clf.Prelude.{
  zero, suc, ==_iff, leb, ltb, leb→le, ltb→lt, ◌+◌, ◌≤◌, Bool-cases, inl, inr, raise, ◌||◌, true, ℕ,
  ◌*◌, ◌/◌, ◌<◌, ◌≡◌, refl, ap, ◌∙◌, Bool, false, arith, ◌==◌, if◌then◌else◌,
}
use clf.Bytes.{u64_mod}
use clf.Kernels.Abi6.{clf_abi6_matmul}
use clf.Kernels.Conv.{mul_usize}
use clf.Kernels.Floats.{Floats}
use clf.Kernels.Matmul.{matmul_scalar, matmul_avx2}
use clf.Kernels.Memory.{divide_by_zero, done}

nonzero : (n : ℕ) → 0 < n → (n == 0) ≡ false
nonzero n h = ground (arith, h)

-- What a bound on a square says of its root.
root_above : (a k : ℕ) → (a + 1) * (a + 1) < (k + 1) * (k + 1) → a < k
root_above a k h = elim (Bool-cases (ltb a k)) [
  | inl less ↦ ltb→lt a k less
  | inr more ↦
      let le : k + 1 ≤ a + 1 = ground (arith, more) in
      let squares : (k + 1) * (k + 1) ≤ (a + 1) * (a + 1) = mul-le-mul le le in
      absurd (omega (arith, h, squares))
]

root_below : (a k : ℕ) → k * k < (a + 1) * (a + 1) → k ≤ a
root_below a k h = elim (Bool-cases (leb k a)) [
  | inl le ↦ leb→le k a le
  | inr more ↦
      let le : a + 1 ≤ k = ground (arith, more) in
      let squares : (a + 1) * (a + 1) ≤ k * k = mul-le-mul le le in
      absurd (omega (arith, h, squares))
]

square_zero : (k : ℕ) → k * k ≤ 0 → k ≡ 0
square_zero zero h = refl
square_zero (suc k) h = absurd (omega (arith, h))

square_pos : (k : ℕ) → 1 < (k + 1) * (k + 1) → 0 < k
square_pos zero h = absurd (omega (arith, h))
square_pos (suc k) h = omega arith

module _ (fp : Floats) (avx2 : Bool) (isqrt : ℕ → ℕ) where
  -- From the lengths of an `m` by `k` and a `k` by `n` matrix and of their product, the 6-argument
  -- entry point recovers the three dimensions and runs the build's product on them, where none is
  -- zero, the product of the input lengths does not wrap around, and the root of `k * k` is exact.
  pub clf_abi6_matmul-dimensions :
      (input output weights m k n : ℕ)
      → 0 < m
      → 0 < k
      → 0 < n
      → m * k * (k * n) < u64_mod
      → isqrt (k * k) ≡ k
      → clf_abi6_matmul fp avx2 isqrt input output weights (m * k) (m * n) (k * n) ≡ (
          if avx2
          then matmul_avx2 fp output input weights m k n
          else matmul_scalar fp output input weights m k n)
  unfolding clf_abi6_matmul
  clf_abi6_matmul-dimensions input output weights m k n pos_m pos_k pos_n small root =
      let area : 0 < m * n = mul-pos pos_m pos_n in
      let regroup : m * k * (k * n) ≡ k * k * (m * n) = omega arith in
      let square : mul_usize (m * k) (k * n) / (m * n) ≡ k * k =
        ap (λ t. t / (m * n)) (mod-eq_of_lt small ∙ regroup) ∙ mul-div_cancel (k * k) area in
      rw
        (
          square,
          root,
          mul-div_cancel m pos_k,
          mul-div_cancel_left n pos_m,
          nonzero (m * n) area,
          nonzero k pos_k,
          nonzero m pos_m,
          nonzero n pos_n,
        )
        refl

  -- A derived `k` that is greater than the input's length leaves no row.
  no_rows :
      (input output weights in_len out_len w_len : ℕ)
      → 0 < out_len
      → in_len < isqrt (mul_usize in_len w_len / out_len)
      → clf_abi6_matmul fp avx2 isqrt input output weights in_len out_len w_len
        ≡ raise divide_by_zero
  unfolding clf_abi6_matmul
  no_rows input output weights in_len out_len w_len pos less =
      rw
        (
          nonzero out_len pos,
          nonzero (isqrt (mul_usize in_len w_len / out_len)) (omega (arith, less)),
          div-eq_of_lt less,
        )
        refl

  -- A derived `k` that is not greater leaves one or more, unless it is zero.
  some_rows :
      (input output weights in_len out_len w_len k : ℕ)
      → 0 < out_len
      → in_len * w_len < u64_mod
      → isqrt (in_len * w_len / out_len) ≡ k
      → k * k ≤ in_len * w_len / out_len
      → in_len * w_len / out_len < (k + 1) * (k + 1)
      → k ≤ in_len
      → clf_abi6_matmul fp avx2 isqrt input output weights in_len out_len w_len ≡ (
          if ltb (in_len * w_len) out_len || ltb out_len (in_len / k)
          then done
          else if avx2
          then matmul_avx2 fp output input weights (in_len / k) k (out_len / (in_len / k))
          else matmul_scalar fp output input weights (in_len / k) k (out_len / (in_len / k)))
  unfolding clf_abi6_matmul
  some_rows input output weights in_len out_len w_len k pos small root low high le =
      let product = in_len * w_len in
      let m = in_len / k in
      let plain : mul_usize in_len w_len ≡ product = mod-eq_of_lt small in
      let output_there = nonzero out_len pos in
      elim (Bool-cases (ltb product out_len)) [
        | inl few ↦
            let none_left : product / out_len ≡ 0 = div-eq_of_lt (ltb→lt _ _ few) in
            let zero_k : k ≡ 0 = square_zero k (rw none_left at low) in
            let derived : (isqrt (product / out_len) == 0) ≡ true =
              (==_iff _ _).1 (root ∙ zero_k) in
            rw (plain, output_there, derived, few) refl
        | inr many ↦
            let one : 1 ≤ product / out_len = (le-div_iff_mul-le pos).1 (ground (arith, many)) in
            let pos_k : 0 < k = square_pos k (lt_of_le_of_lt one high) in
            let pos_m : 1 ≤ m = (le-div_iff_mul-le pos_k).1 (omega (arith, le)) in
            elim (Bool-cases (ltb out_len m)) [
              | inl narrow ↦
                  rw
                    (
                      plain,
                      output_there,
                      root,
                      nonzero k pos_k,
                      nonzero m (omega (arith, pos_m)),
                      div-eq_of_lt (ltb→lt _ _ narrow),
                      many,
                      narrow,
                    )
                    refl
              | inr wide ↦
                  let columns : 1 ≤ out_len / m =
                    (le-div_iff_mul-le pos_m).1 (ground (arith, wide)) in
                  rw
                    (
                      plain,
                      output_there,
                      root,
                      nonzero k pos_k,
                      nonzero m (omega (arith, pos_m)),
                      nonzero (out_len / m) (omega (arith, columns)),
                      many,
                      wide,
                    )
                    refl
            ]
      ]

  -- What the entry point does, by the lengths: it panics with a division by zero if `in_len` and
  -- `w_len` are so uneven that `(in_len + 1) ^ 2 * out_len` is at most `in_len * w_len`; else it does
  -- nothing if `in_len * w_len` is less than `out_len`, or `out_len` less than the number of
  -- rows; else it runs the build's product on `m = in_len / k`, `k` and `out_len / m`. It is required
  -- that there is an output, that `in_len * w_len` does not wrap around, and that `k` is the square
  -- root of `in_len * w_len / out_len`, rounded down.
  pub clf_abi6_matmul-lengths :
      (input output weights in_len out_len w_len k : ℕ)
      → 0 < out_len
      → in_len * w_len < u64_mod
      → isqrt (in_len * w_len / out_len) ≡ k
      → k * k ≤ in_len * w_len / out_len
      → in_len * w_len / out_len < (k + 1) * (k + 1)
      → clf_abi6_matmul fp avx2 isqrt input output weights in_len out_len w_len ≡ (
          if leb ((in_len + 1) * (in_len + 1) * out_len) (in_len * w_len)
          then raise divide_by_zero
          else if ltb (in_len * w_len) out_len || ltb out_len (in_len / k)
          then done
          else if avx2
          then matmul_avx2 fp output input weights (in_len / k) k (out_len / (in_len / k))
          else matmul_scalar fp output input weights (in_len / k) k (out_len / (in_len / k)))
  unfolding clf_abi6_matmul
  clf_abi6_matmul-lengths input output weights in_len out_len w_len k pos small root low high =
      let product = in_len * w_len in
      let plain : mul_usize in_len w_len ≡ product = mod-eq_of_lt small in
      elim (Bool-cases (leb ((in_len + 1) * (in_len + 1) * out_len) product)) [
        | inl uneven ↦
            let square : (in_len + 1) * (in_len + 1) ≤ product / out_len =
              (le-div_iff_mul-le pos).1 (leb→le _ _ uneven) in
            let less : in_len < k = root_above in_len k (lt_of_le_of_lt square high) in
            let derived : in_len < isqrt (mul_usize in_len w_len / out_len) =
              rw (plain, root) less in
            rw uneven (no_rows input output weights in_len out_len w_len pos derived)
        | inr even ↦
            let bound : product < (in_len + 1) * (in_len + 1) * out_len = ground (arith, even) in
            let square : k * k < (in_len + 1) * (in_len + 1) =
              lt_of_le_of_lt low ((div-lt_iff_lt-mul pos).1 bound) in
            let le : k ≤ in_len = root_below in_len k square in
            rw even
              (some_rows input output weights in_len out_len w_len k pos small root low high le)
      ]
