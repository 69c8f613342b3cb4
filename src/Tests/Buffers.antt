-- ===== src/Tests/Buffers.antt =====
-- The kernels on small buffers, with numbers in place of floats and 64 cells of memory that hold
-- their own addresses.
use clf.Prelude.{raise}
use clf.Prelude.{
  ℕ, zero, suc, ◌+◌, ◌-◌, ◌*◌, ◌/◌, ◌%◌, ◌<◌, ◌≤◌, ◌≡◌, refl, true, false, ok, err, some, none,
  arith, ltb, leb, ◌==◌, inl, inr, if◌then◌else◌, lt→ltb, ◌||◌, not,
}
use clf.Kernels.Arithmetic.{
  clf_simd_add, clf_simd_subtract, clf_simd_multiply, clf_simd_relu, clf_simd_abs, divide_avx2,
  min_avx2,
}
use clf.Kernels.Movement.{clf_simd_broadcast, clf_simd_expand}
use clf.Kernels.Reduce.{reduce_max_avx2, reduce_min_avx2}
use clf.Kernels.Abi6.{clf_abi6_matmul}
use clf.Kernels.Abi6.Dimensions.{clf_abi6_matmul-dimensions, clf_abi6_matmul-lengths}
use clf.Kernels.Arithmetic.Outputs.{clf_simd_add-filled, clf_simd_relu-filled, divide_avx2-filled}
use clf.Kernels.Compare.Outputs.{compare_avx2-compare_scalar}
use clf.Kernels.Compare.{compare_avx2, compare_scalar}
use clf.Kernels.Conv.Shapes.{Fit, derive_conv_shapes-Fit}
use clf.Kernels.Conv.{ConvShapes, derive_conv_shapes, first_candidate, conv_candidate}
use clf.Kernels.Floats.{Floats, pos}
use clf.Kernels.Matmul.Product.{entry_of, matmul_scalar-filled}
use clf.Kernels.Matmul.{matmul_scalar}
use clf.Kernels.Memory.Fill.{filled, IsMapped}
use clf.Kernels.Memory.{Memory, unmapped, divide_by_zero}
use clf.Kernels.Movement.Broadcast.{clf_simd_broadcast-filled}
use mathlib.Core.List.{foldl}
use clf.Kernels.Halts.{Halts}
use clf.Kernels.Halts.Vectors.{clf_simd_reduce-Halts, clf_simd_matmul-Halts}
use clf.Kernels.Matmul.{clf_simd_matmul}
use clf.Kernels.Memory.Blocks.{cells}
use clf.Kernels.Reduce.Greatest.{Ordered, IsGreatest, reduce_max_scalar-IsGreatest}
use clf.Kernels.Reduce.Rows.{reduce_sum_scalar-filled}
use clf.Kernels.Reduce.Least.{IsLeast, reduce_min_scalar-IsLeast}
use clf.Kernels.Reduce.{
  reduce_sum_scalar, reduce_prod_scalar, reduce_mean_scalar, reduce_max_scalar, reduce_min_scalar,
  clf_simd_reduce_sum, clf_simd_reduce_mean, clf_simd_reduce_max, clf_simd_reduce_min,
}
use clf.Kernels.Reduce.Short.{reduce_max_avx2-unmapped}

abbrev numbers : Floats
numbers = record {
  F = ℕ;
  zero_f = 0;
  one = 1;
  add = λ a b. a + b;
  sub = λ a b. a - b;
  mul = λ a b. a * b;
  div = λ a b. a / b;
  neg = λ a. a;
  abs = λ a. a;
  sqrt = λ a. a;
  exp = λ a. a;
  ln = λ a. a;
  tanh = λ a. a;
  cos = λ a. a;
  sin = λ a. a;
  powf = λ a b. a;
  minimum = λ a b. if ltb b a then b else a;
  maximum = λ a b. if ltb a b then b else a;
  fma = λ a b c. a * b + c;
  eq = λ a b. a == b;
  lt = λ a b. ltb a b;
  le = λ a b. leb a b;
  of_nat = λ n. n;
  half = 0;
  quarter = 0;
  gelu_cubic = 0;
  gelu_sqrtpi = 0;
  norm_eps = 0;
  log_floor = 0;
  to_i32 = λ n. pos n;
}

-- The cells from 0 to 63.
abbrev memory : Memory ℕ
memory = record { mapped = λ p. ltb p 64; cell = λ p. p }

memory-IsMapped : (p n : ℕ) → p + n ≤ 64 → IsMapped memory p n
memory-IsMapped p n room q low high = lt→ltb q 64 (omega (arith, room))

-- The greatest number up to `r` whose square is at most `n`.
abbrev root_up_to : (r n : ℕ) → ℕ
root_up_to zero n = 0
root_up_to (suc r) n = let rest = root_up_to r n in if leb (suc r * suc r) n then suc r else rest

abbrev root : ℕ → ℕ
root n = root_up_to n n

-- Eleven sums written over the first operand: one block of eight and three more.
clf_simd_add-filled_example :
    (clf_simd_add numbers true 0 0 20 11 memory
      ≡ (ok tt, filled memory 0 (λ k. (0 + k) + (20 + k)) 11))
    × (clf_simd_subtract numbers true 0 0 20 11 memory
        ≡ (ok tt, filled memory 0 (λ k. (0 + k) - (20 + k)) 11))
    × (clf_simd_multiply numbers true 0 0 20 11 memory
        ≡ (ok tt, filled memory 0 (λ k. (0 + k) * (20 + k)) 11))
clf_simd_add-filled_example =
    clf_simd_add-filled numbers true memory 0 0 20 11 (memory-IsMapped 0 11 (omega arith))
      (memory-IsMapped 0 11 (omega arith)) (memory-IsMapped 20 11 (omega arith)) (inl (omega arith))
      (inl (omega arith))

clf_simd_relu-filled_example :
    (clf_simd_relu numbers false 30 0 9 memory
      ≡ (ok tt, filled memory 30 (λ k. if ltb 0 (0 + k) then 0 + k else 0) 9))
    × (clf_simd_abs numbers false 30 0 9 memory ≡ (ok tt, filled memory 30 (λ k. 0 + k) 9))
clf_simd_relu-filled_example =
    clf_simd_relu-filled numbers false memory 30 0 9 (memory-IsMapped 30 9 (omega arith))
      (memory-IsMapped 0 9 (omega arith)) (inr (omega arith))

divide_avx2-filled_example :
    (divide_avx2 numbers 30 20 0 9 memory ≡ (
      ok tt,
      filled memory 30
          (λ k.
            if ltb k (9 / 8 * 8)
            then (20 + k) / (0 + k)
            else if (0 + k) == 0
            then 0
            else (20 + k) / (0 + k))
          9,
    ))
    × (min_avx2 numbers 30 20 0 9 memory ≡ (
      ok tt,
      filled memory 30
          (λ k.
            if ltb k (9 / 8 * 8)
            then (if ltb (20 + k) (0 + k) then 20 + k else 0 + k)
            else if ltb (0 + k) (20 + k)
            then 0 + k
            else 20 + k)
          9,
    ))
divide_avx2-filled_example =
    divide_avx2-filled numbers memory 30 20 0 9 (memory-IsMapped 30 9 (omega arith))
      (memory-IsMapped 20 9 (omega arith)) (memory-IsMapped 0 9 (omega arith)) (inr (omega arith))
      (inr (omega arith))

unequal_or_less : (x y : ℕ) → (ltb x y || ltb y x) ≡ not (x == y)
unequal_or_less x y = ground arith

compare_avx2-compare_scalar_example :
    compare_avx2 numbers 30 0 10 9 81 memory ≡ compare_scalar numbers 30 0 10 9 81 memory
compare_avx2-compare_scalar_example =
    compare_avx2-compare_scalar numbers memory 30 0 10 9 81 (memory-IsMapped 30 9 (omega arith))
      (memory-IsMapped 0 9 (omega arith)) (memory-IsMapped 10 9 (omega arith)) (inr (omega arith))
      (inr (omega arith)) (λ k less. unequal_or_less (0 + k) (10 + k))

clf_simd_broadcast-filled_example :
    (clf_simd_broadcast 30 5 3 7 memory ≡ (ok tt, filled memory 30 (λ k. 5 + k % 3) 7))
    × (clf_simd_expand 30 5 3 7 memory ≡ (ok tt, filled memory 30 (λ k. 5 + k % 3) 7))
clf_simd_broadcast-filled_example =
    clf_simd_broadcast-filled memory 30 5 3 7 (omega arith) (memory-IsMapped 30 7 (omega arith))
      (memory-IsMapped 5 3 (omega arith)) (inl (omega arith))

-- A row of five cells at the end of the memory.
reduce_max_avx2-unmapped_example :
    (reduce_max_avx2 numbers 0 59 1 5 memory ≡ (err (unmapped (59 + 1 * 5)), memory))
    × (reduce_min_avx2 numbers 0 59 1 5 memory ≡ (err (unmapped (59 + 1 * 5)), memory))
reduce_max_avx2-unmapped_example =
    reduce_max_avx2-unmapped numbers memory 0 59 1 5 (omega arith) (omega arith)
      (memory-IsMapped 59 (1 * 5) (omega arith)) refl

-- A product of a 2 by 3 and a 3 by 2 matrix.
matmul_scalar-filled_example :
    matmul_scalar numbers 30 0 10 2 3 2 memory
    ≡ (ok tt, filled memory 30 (λ q. entry_of numbers (λ p. p) 0 10 3 2 (q / 2) (q % 2)) (2 * 2))
matmul_scalar-filled_example =
    matmul_scalar-filled numbers memory 30 0 10 2 3 2 (memory-IsMapped 30 (2 * 2) (omega arith))
      (memory-IsMapped 0 (2 * 3) (omega arith)) (memory-IsMapped 10 (3 * 2) (omega arith))
      (inl (omega arith)) (inl (omega arith))

-- Two images of 4 by 4, three of them out, and kernels of 3 by 3.
abbrev shapes : ConvShapes
shapes = record {
  c_in = 2;
  c_out = 3;
  image = record { height = 4; width = 4 };
  kernel = record { height = 3; width = 3 };
}

shapes_found : derive_conv_shapes root 32 48 54 ≡ some shapes
unfolding derive_conv_shapes first_candidate conv_candidate
shapes_found = refl

derive_conv_shapes-Fit_example :
    Fit 32 48 54 shapes × ((d : ℕ) → 0 < d → d < 2 → conv_candidate root 32 48 54 d ≡ none)
derive_conv_shapes-Fit_example =
    derive_conv_shapes-Fit root 32 48 54 shapes (omega arith) (omega arith) (omega arith)
      shapes_found

clf_abi6_matmul-dimensions_example :
    clf_abi6_matmul numbers false root 0 30 10 (2 * 3) (2 * 4) (3 * 4)
    ≡ matmul_scalar numbers 30 0 10 2 3 4
clf_abi6_matmul-dimensions_example =
    clf_abi6_matmul-dimensions numbers false root 0 30 10 2 3 4 (omega arith) (omega arith)
      (omega arith) (omega arith) refl

-- An input of two cells, weights of eighteen and an output of one.
clf_abi6_matmul-lengths_example :
    clf_abi6_matmul numbers true root 0 30 10 2 1 18 ≡ raise divide_by_zero
clf_abi6_matmul-lengths_example =
    clf_abi6_matmul-lengths numbers true root 0 30 10 2 1 18 6 (omega arith) (omega arith) refl
      (omega arith) (omega arith)

-- Three rows of four, over their own start.
reduce_sum_scalar-filled_example :
    (reduce_sum_scalar numbers 0 0 3 4 memory
      ≡ (ok tt, filled memory 0 (λ r. foldl (λ a b. a + b) 0 (cells (λ p. p) (0 + r * 4) 4)) 3))
    × (reduce_prod_scalar numbers 0 0 3 4 memory
        ≡ (ok tt, filled memory 0 (λ r. foldl (λ a b. a * b) 1 (cells (λ p. p) (0 + r * 4) 4)) 3))
    × (reduce_mean_scalar numbers 0 0 3 4 memory ≡ (
      ok tt,
      filled memory 0 (λ r. foldl (λ a b. a + b) 0 (cells (λ p. p) (0 + r * 4) 4) * (1 / 4)) 3,
    ))
reduce_sum_scalar-filled_example =
    reduce_sum_scalar-filled numbers memory 0 0 3 4 (omega arith)
      (memory-IsMapped 0 3 (omega arith)) (memory-IsMapped 0 (3 * 4) (omega arith))
      (inl (omega arith))

clf_simd_reduce-Halts_example :
    Halts (clf_simd_reduce_sum numbers true 30 0 2 11)
    × Halts (clf_simd_reduce_mean numbers true 30 0 2 11)
    × Halts (clf_simd_reduce_max numbers true 30 0 2 11)
    × Halts (clf_simd_reduce_min numbers true 30 0 2 11)
clf_simd_reduce-Halts_example = clf_simd_reduce-Halts numbers true 30 0 2 11

clf_simd_matmul-Halts_example :
    Halts (clf_simd_add numbers true 40 0 20 9) × Halts (clf_simd_matmul numbers true 40 0 20 2 3 9)
clf_simd_matmul-Halts_example = clf_simd_matmul-Halts numbers true 40 0 20 2 3 9

not_less : (a : ℕ) → ltb a a ≡ false
not_less a = ground arith

not_both : (a b : ℕ) → ltb a b ≡ true → ltb b a ≡ false
not_both a b h = ground arith

not_less_trans : (a b c : ℕ) → ltb b a ≡ false → ltb c b ≡ false → ltb c a ≡ false
not_less_trans a b c h g = ground arith

abbrev order : Ordered numbers
order = record {
  IsNumber = λ n. Unit {0};
  irrefl = not_less;
  asym = not_both;
  trans = λ a b c n. not_less_trans a b c;
}

reduce_max_scalar-IsGreatest_example :
    ((reduce_max_scalar numbers 30 0 3 4 memory).0 ≡ ok tt)
    × IsGreatest numbers
        (λ p. p)
        (0 + 2 * 4)
        4
        ((reduce_max_scalar numbers 30 0 3 4 memory).1.cell (30 + 2))
reduce_max_scalar-IsGreatest_example =
    reduce_max_scalar-IsGreatest numbers order memory 30 0 3 4 2 (omega arith) (omega arith)
      (memory-IsMapped 30 3 (omega arith)) (memory-IsMapped 0 (3 * 4) (omega arith))
      (inr (omega arith)) (λ k less. tt)

-- The last of three rows, and the cell behind the output.
reduce_min_scalar-IsLeast_example :
    ((reduce_min_scalar numbers 30 0 3 4 memory).0 ≡ ok tt)
    × IsLeast numbers
        (λ p. p)
        (0 + 2 * 4)
        4
        ((reduce_min_scalar numbers 30 0 3 4 memory).1.cell (30 + 2))
    × ((reduce_min_scalar numbers 30 0 3 4 memory).1.cell 33 ≡ 33)
reduce_min_scalar-IsLeast_example =
    reduce_min_scalar-IsLeast numbers order memory 30 0 3 4 2 33 (omega arith) (omega arith)
      (inr (omega arith)) (memory-IsMapped 30 3 (omega arith))
      (memory-IsMapped 0 (3 * 4) (omega arith)) (inr (omega arith)) (λ k less. tt)
