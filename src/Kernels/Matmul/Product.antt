-- ===== src/Kernels/Matmul/Product.antt =====
-- The scalar product of matrices puts out each entry's sum.
use native.Mathlib.Nat.{mod-eq_of_lt, div-eq_of_lt, mul-add-div_right, mul-add-mod_self_right}
use clf.Prelude.{
  ℕ, zero, suc, ◌+◌, ◌*◌, ◌/◌, ◌%◌, ◌<◌, ◌≤◌, ◌≡◌, ◌⊎◌, refl, sym, ap, ap₂, ◌∙◌, ok, arith, pure,
  ◌>>=◌,
}
use clf.Kernels.Floats.{Floats}
use clf.Kernels.Matmul.{dot, matmul_scalar}
use clf.Kernels.Memory.{Memory, Kernel, load, store, for_each, for_range}
use clf.Kernels.Memory.Folds.{index_lt, folded, fold_range_reads}
use clf.Kernels.Memory.Fill.{filled, filled-zero, IsMapped, load-filled, store-filled}

module _ {F : Type 0} where
  -- A row of `n` cells, and rows one after the other.
  row_fill :
      (m : Memory F) (out n base : ℕ) (g : ℕ → F) (body : ℕ → Kernel F (Unit {0}))
      → ((j : ℕ)
          → j < n
          → body j (filled m out g (base + j)) ≡ (ok tt, filled m out g (base + j + 1)))
      → (r j : ℕ) → j + r ≡ n
      → for_range r j body (filled m out g (base + j)) ≡ (ok tt, filled m out g (base + n))
  unfolding for_range
  row_fill m out n base g body step zero j e = let e' : j ≡ n = omega (arith, e) in rw e'
  row_fill m out n base g body step (suc r) j e =
      let assoc : base + j + 1 ≡ base + (j + 1) = omega arith in
      rw (step j (omega (arith, e)), assoc)
        (row_fill m out n base g body step r (j + 1) (omega (arith, e)))

  rows_fill :
      (m : Memory F) (out n : ℕ) (g : ℕ → F) (body : ℕ → ℕ → Kernel F (Unit {0})) (rows : ℕ)
      → ((i j : ℕ)
          → i < rows
          → j < n
          → body i j (filled m out g (i * n + j)) ≡ (ok tt, filled m out g (i * n + j + 1)))
      → (r i : ℕ) → i + r ≡ rows
      → for_range r i (λ i. for_each n (body i)) (filled m out g (i * n))
        ≡ (ok tt, filled m out g (rows * n))
  unfolding for_range
  rows_fill m out n g body rows step zero i e = let e' : i ≡ rows = omega (arith, e) in rw e'
  rows_fill m out n g body rows step (suc r) i e =
      let start : i * n ≡ i * n + 0 = omega arith in
      let next : i * n + n ≡ (i + 1) * n = omega arith in
      let row : for_each n (body i) (filled m out g (i * n))
          ≡ (ok tt, filled m out g ((i + 1) * n)) =
        ap (λ t. for_each n (body i) (filled m out g t)) start
        ∙ row_fill m out n (i * n) g (body i) (λ j lt. step i j (omega (arith, e)) lt) n 0
            (omega arith)
        ∙ ap (λ t. (ok tt, filled m out g t)) next in
      rw row (rows_fill m out n g body rows step r (i + 1) (omega (arith, e)))

module _ (fp : Floats) where
  open fp use {F, zero_f, add, mul}

  -- The entry in row `i` and column `j`: the products summed from the first on, as floats are.
  abbrev pub entry_of : (ℕ → F) → (a b k n i j : ℕ) → F
  entry_of c a b k n i j =
      folded (λ sum p. add sum (mul (c (a + (i * k + p))) (c (b + (p * n + j))))) k 0 zero_f

  dot_lem :
      (mem : Memory F) (out : ℕ) (g : ℕ → F) (a b m k n i j : ℕ)
      → i < m
      → j < n
      → IsMapped mem a (m * k)
      → IsMapped mem b (k * n)
      → (a + m * k ≤ out) ⊎ (out + m * n ≤ a)
      → (b + k * n ≤ out) ⊎ (out + m * n ≤ b)
      → dot fp a b k n i j (filled mem out g (i * n + j))
        ≡ (ok (entry_of mem.cell a b k n i j), filled mem out g (i * n + j))
  unfolding dot
  dot_lem mem out g a b m k n i j row column left right apart_a apart_b =
      fold_range_reads (filled mem out g (i * n + j))
        (λ sum p. add sum (mul (mem.cell (a + (i * k + p))) (mem.cell (b + (p * n + j)))))
        (λ sum p. load (a + (i * k + p)) >>= λ va.
          load (b + (p * n + j)) >>= λ vb. pure (add sum (mul va vb)))
        k k 0 zero_f
        (λ sum p less.
          let here : i * n + j < m * n = index_lt i j m n row column in
          let at_a : i * k + p < m * k = index_lt i p m k row less in
          let at_b : p * n + j < k * n = index_lt p j k n less column in
          let before_a : (a + (i * k + p) < out) ⊎ (out + (i * n + j) ≤ a + (i * k + p)) =
            ground (arith, apart_a, here, at_a) in
          let before_b : (b + (p * n + j) < out) ⊎ (out + (i * n + j) ≤ b + (p * n + j)) =
            ground (arith, apart_b, here, at_b) in
          rw
            (
              load-filled mem out g (i * n + j) (a + (i * k + p)) before_a
                  (left (a + (i * k + p)) (omega arith) (omega (arith, at_a))),
              load-filled mem out g (i * n + j) (b + (p * n + j)) before_b
                  (right (b + (p * n + j)) (omega arith) (omega (arith, at_b))),
            )
            refl)
        (omega arith)

  -- The product of an `m` by `k` and a `k` by `n` matrix fills the output, row by row, with the entry
  -- of each row and column, and changes nothing else, where the output lies apart from both.
  pub matmul_scalar-filled :
      (mem : Memory F) (out a b m k n : ℕ)
      → IsMapped mem out (m * n)
      → IsMapped mem a (m * k)
      → IsMapped mem b (k * n)
      → (a + m * k ≤ out) ⊎ (out + m * n ≤ a)
      → (b + k * n ≤ out) ⊎ (out + m * n ≤ b)
      → matmul_scalar fp out a b m k n mem
        ≡ (ok tt, filled mem out (λ q. entry_of mem.cell a b k n (q / n) (q % n)) (m * n))
  unfolding matmul_scalar
  matmul_scalar-filled mem out a b m k n to left right apart_a apart_b =
      let g : ℕ → F = λ q. entry_of mem.cell a b k n (q / n) (q % n) in
      let empty : 0 * n ≡ 0 = omega arith in
      ap
        (for_each m
          (λ i. for_each n (λ j. dot fp a b k n i j >>= λ sum. store (out + (i * n + j)) sum)))
        (sym (filled-zero mem out g) ∙ ap (filled mem out g) (sym empty))
      ∙ rows_fill mem out n g (λ i j. dot fp a b k n i j >>= λ sum. store (out + (i * n + j)) sum) m
          (λ i j row column.
            let here : i * n + j < m * n = index_lt i j m n row column in
            let pos : 0 < n = omega (arith, column) in
            let quotient : (i * n + j) / n ≡ i =
              mul-add-div_right pos i j ∙ omega (arith, div-eq_of_lt column) in
            let remainder : (i * n + j) % n ≡ j =
              mul-add-mod_self_right i n j ∙ mod-eq_of_lt column in
            rw (dot_lem mem out g a b m k n i j row column left right apart_a apart_b) (
              store-filled mem out g (i * n + j) (entry_of mem.cell a b k n i j)
                (ap₂ (λ x y. entry_of mem.cell a b k n x y) (sym quotient) (sym remainder))
                (to (out + (i * n + j)) (omega arith) (omega (arith, here)))))
          m 0 (omega arith)
