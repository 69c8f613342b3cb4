-- ===== src/Kernels/Compare.antt =====
-- kernels/simd/src/lib.rs: comparisons and logic on floats, where any float but zero is true.
pub mod Outputs
use clf.Prelude.{ℕ, Bool, Action, ◌==◌, not, ◌&&◌, ◌||◌, if◌then◌else◌}
use clf.Kernels.Elementwise.{map_scalar, zip_scalar, map_avx2, zip_avx2, entry}
use clf.Kernels.Floats.{Floats}
use clf.Kernels.Memory.{Kernel, done}

module _ (fp : Floats) where
  open fp use {F, zero_f, one, eq, lt, le}

  abbrev pub truth : Bool → F
  truth b = if b then one else zero_f

  -- `va op vb` of the language: `!=` is the negation of `==`, also for a NaN.
  abbrev pub compare_float : (op : ℕ) → F → F → F
  compare_float op va vb =
      if op == 80
      then truth (eq va vb)
      else if op == 81
      then truth (not (eq va vb))
      else if op == 82
      then truth (lt vb va)
      else if op == 83
      then truth (le vb va)
      else if op == 84
      then truth (lt va vb)
      else if op == 85
      then truth (le va vb)
      else zero_f

  -- A lane of `_mm256_cmp_ps` under the mask of ones. The predicates are the ordered ones, so
  -- `_CMP_NEQ_OQ` is false where an operand is a NaN: it holds of floats where one is less.
  abbrev pub compare_lane : (op : ℕ) → F → F → F
  compare_lane op va vb =
      if op == 80
      then truth (eq va vb)
      else if op == 81
      then truth (lt va vb || lt vb va)
      else if op == 82
      then truth (lt vb va)
      else if op == 83
      then truth (le vb va)
      else if op == 84
      then truth (lt va vb)
      else if op == 85
      then truth (le va vb)
      else zero_f

  unfoldable pub compare_scalar : (out a b count op : ℕ) → Kernel F (Unit {0})
  compare_scalar out a b count op = zip_scalar (compare_float op) out a b count

  unfoldable pub compare_avx2 : (out a b count op : ℕ) → Kernel F (Unit {0})
  unfolding compare_scalar
  compare_avx2 out a b count op =
      zip_avx2 (compare_lane op) (λ o x y n. compare_scalar o x y n op) out a b count

  abbrev pub compare_entry : (op : ℕ) (avx2 : Bool) (out a b count : ℕ) → Kernel F (Unit {0})
  compare_entry op avx2 out a b count =
      entry avx2 count (compare_avx2 out a b count op) (compare_scalar out a b count op)

  unfoldable pub clf_simd_equal : (avx2 : Bool) (out a b count : ℕ) → Kernel F (Unit {0})
  unfolding compare_scalar compare_avx2
  clf_simd_equal avx2 out a b count = compare_entry 80 avx2 out a b count

  unfoldable pub clf_simd_not_equal : (avx2 : Bool) (out a b count : ℕ) → Kernel F (Unit {0})
  unfolding compare_scalar compare_avx2
  clf_simd_not_equal avx2 out a b count = compare_entry 81 avx2 out a b count

  unfoldable pub clf_simd_greater : (avx2 : Bool) (out a b count : ℕ) → Kernel F (Unit {0})
  unfolding compare_scalar compare_avx2
  clf_simd_greater avx2 out a b count = compare_entry 82 avx2 out a b count

  unfoldable pub clf_simd_greater_equal : (avx2 : Bool) (out a b count : ℕ) → Kernel F (Unit {0})
  unfolding compare_scalar compare_avx2
  clf_simd_greater_equal avx2 out a b count = compare_entry 83 avx2 out a b count

  unfoldable pub clf_simd_less : (avx2 : Bool) (out a b count : ℕ) → Kernel F (Unit {0})
  unfolding compare_scalar compare_avx2
  clf_simd_less avx2 out a b count = compare_entry 84 avx2 out a b count

  unfoldable pub clf_simd_less_equal : (avx2 : Bool) (out a b count : ℕ) → Kernel F (Unit {0})
  unfolding compare_scalar compare_avx2
  clf_simd_less_equal avx2 out a b count = compare_entry 85 avx2 out a b count

  abbrev pub nonzero : F → Bool
  nonzero v = not (eq v zero_f)

  unfoldable pub clf_simd_and : (out a b count : ℕ) → Kernel F (Unit {0})
  clf_simd_and out a b count = zip_scalar (λ x y. truth (nonzero x && nonzero y)) out a b count

  unfoldable pub clf_simd_or : (out a b count : ℕ) → Kernel F (Unit {0})
  clf_simd_or out a b count = zip_scalar (λ x y. truth (nonzero x || nonzero y)) out a b count

  unfoldable pub clf_simd_not : (out x count : ℕ) → Kernel F (Unit {0})
  clf_simd_not out x count = map_scalar (λ v. if nonzero v then zero_f else one) out x count
