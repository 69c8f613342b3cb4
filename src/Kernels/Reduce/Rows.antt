-- ===== src/Kernels/Reduce/Rows.antt =====
-- What the scalar reductions put out for each row.
use mathlib.Core.List.{foldl}
use clf.Prelude.{ℕ, zero, suc, ◌+◌, ◌-◌, ◌*◌, ◌<◌, ◌≤◌, ◌≡◌, ◌⊎◌, refl, ok, arith, ◌>>=◌}
use clf.Kernels.Elementwise.Agrees.{IsAhead}
use clf.Kernels.Floats.{Floats}
use clf.Kernels.Memory.Blocks.{cells}
use clf.Kernels.Memory.Fill.{filled, IsMapped, load-filled, store-filled, for_each_fill}
use clf.Kernels.Memory.Folds.{accumulate_reads, rows_filled}
use clf.Kernels.Memory.{Memory, load, store, for_each}
use clf.Kernels.Reduce.{
  accumulate, best_of_row, greater_of, lesser_of, reduce_sum_scalar, reduce_prod_scalar,
  reduce_mean_scalar, reduce_max_scalar, reduce_min_scalar,
}

pub row_ends : (r rows cols : ℕ) → r < rows → r * cols + cols ≤ rows * cols
row_ends r rows cols less = grind arith

row_starts : (r cols : ℕ) → 0 < cols → r ≤ r * cols
row_starts zero cols pos = omega arith
row_starts (suc r) cols pos = omega (arith, row_starts r cols pos)

-- A row that is still to be read lies apart from the rows that have been put out.
row_apart :
    (out x r rows cols : ℕ)
    → 0 < cols
    → r < rows
    → IsAhead out x (rows * cols)
    → (x + r * cols + cols ≤ out) ⊎ (out + r ≤ x + r * cols)
row_apart out x r rows cols pos less ahead =
    ground (arith, row_ends r rows cols less, row_starts r cols pos, ahead)

module _ (fp : Floats) where
  open fp use {F, zero_f, one, of_nat}

  sum_of_row :
      (f : F → F → F) (acc : F) (g : ℕ → F) (m : Memory F) (out x rows cols r : ℕ)
      → 0 < cols
      → r < rows
      → IsMapped m x (rows * cols)
      → IsAhead out x (rows * cols)
      → accumulate fp f acc cols (x + r * cols) (filled m out g r)
        ≡ (ok (foldl f acc (cells m.cell (x + r * cols) cols)), filled m out g r)
  sum_of_row f acc g m out x rows cols r pos less from ahead =
      let ends = row_ends r rows cols less in
      accumulate_reads m out g r f acc cols (x + r * cols)
        (row_apart out x r rows cols pos less ahead)
        (λ q low high. from q (omega arith) (omega (arith, ends)))

  -- Of rows that are not empty, the scalar reductions put out the sum, the product and the mean, i.e.
  -- the sum times the inverse of the number of columns, each from the row's first cell on, and change
  -- nothing else. The output may be the start of the input, lie before it, or behind it.
  pub reduce_sum_scalar-filled :
      (m : Memory F) (out x rows cols : ℕ)
      → 0 < cols
      → IsMapped m out rows
      → IsMapped m x (rows * cols)
      → IsAhead out x (rows * cols)
      → (reduce_sum_scalar fp out x rows cols m ≡ (
        ok tt,
        filled m out (λ r. foldl fp.add zero_f (cells m.cell (x + r * cols) cols)) rows,
      ))
        × (reduce_prod_scalar fp out x rows cols m
            ≡ (ok tt, filled m out (λ r. foldl fp.mul one (cells m.cell (x + r * cols) cols)) rows))
        × (reduce_mean_scalar fp out x rows cols m ≡ (
          ok tt,
          filled m out
              (λ r.
                fp.mul
                  (foldl fp.add zero_f (cells m.cell (x + r * cols) cols))
                  (fp.div one (of_nat cols)))
              rows,
        ))
  unfolding reduce_sum_scalar reduce_prod_scalar reduce_mean_scalar
  reduce_sum_scalar-filled m out x rows cols pos to from ahead = (
    rows_of fp.add zero_f (λ s. s),
    rows_of fp.mul one (λ s. s),
    rows_of fp.add zero_f (λ s. fp.mul s inv),
  )
    where
      inv : F
      inv = fp.div one (of_nat cols)

      rows_of :
          (f : F → F → F) (acc : F) (h : F → F)
          → for_each rows
              (λ r. accumulate fp f acc cols (x + r * cols) >>= λ s. store (out + r) (h s))
              m
            ≡ (ok tt, filled m out (λ r. h (foldl f acc (cells m.cell (x + r * cols) cols))) rows)
      rows_of f acc h =
          rows_filled m out rows h (λ r. foldl f acc (cells m.cell (x + r * cols) cols))
            (λ r. accumulate fp f acc cols (x + r * cols)) to
            (λ r less.
              sum_of_row f acc (λ k. h (foldl f acc (cells m.cell (x + k * cols) cols))) m out x
                rows cols r pos less from ahead)

  -- The loops of the scalar maximum and minimum: the row's cells folded with their step, from the
  -- first cell on.
  pub reduce_max_scalar-filled :
      (m : Memory F) (out x rows cols : ℕ)
      → 0 < cols
      → IsMapped m out rows
      → IsMapped m x (rows * cols)
      → IsAhead out x (rows * cols)
      → (reduce_max_scalar fp out x rows cols m ≡ (
        ok tt,
        filled m out
            (λ r.
              foldl
                (greater_of fp)
                (m.cell (x + r * cols))
                (cells m.cell (x + r * cols + 1) (cols - 1)))
            rows,
      ))
        × (reduce_min_scalar fp out x rows cols m ≡ (
          ok tt,
          filled m out
              (λ r.
                foldl
                  (lesser_of fp)
                  (m.cell (x + r * cols))
                  (cells m.cell (x + r * cols + 1) (cols - 1)))
              rows,
        ))
  unfolding reduce_max_scalar reduce_min_scalar
  reduce_max_scalar-filled m out x rows cols pos to from ahead =
      (best (greater_of fp), best (lesser_of fp))
    where
      best :
          (f : F → F → F)
          → best_of_row fp f out x rows cols m ≡ (
            ok tt,
            filled m out
                (λ r. foldl f (m.cell (x + r * cols)) (cells m.cell (x + r * cols + 1) (cols - 1)))
                rows,
          )
      best f =
          let g : ℕ → F =
            λ r. foldl f (m.cell (x + r * cols)) (cells m.cell (x + r * cols + 1) (cols - 1)) in
          for_each_fill m out g
            (λ r. load (x + r * cols) >>= λ first.
              accumulate fp f first (cols - 1) (x + r * cols + 1) >>= λ v. store (out + r) v)
            rows
            (λ r less.
              let ends = row_ends r rows cols less in
              let apart = row_apart out x r rows cols pos less ahead in
              let before : (x + r * cols < out) ⊎ (out + r ≤ x + r * cols) =
                ground (arith, apart) in
              let after : (x + r * cols + 1 + (cols - 1) ≤ out) ⊎ (out + r ≤ x + r * cols + 1) =
                ground (arith, apart) in
              rw
                (
                  load-filled m out g r (x + r * cols) before
                      (from (x + r * cols) (omega arith) (omega (arith, ends))),
                  accumulate_reads m out g r f (m.cell (x + r * cols)) (cols - 1) (x + r * cols + 1)
                      after (λ q low high. from q (omega arith) (omega (arith, ends))),
                )
                (store-filled m out g r (g r) refl
                  (to (out + r) (omega arith) (omega (arith, less)))))
