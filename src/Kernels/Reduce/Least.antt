-- ===== src/Kernels/Reduce/Least.antt =====
-- What `reduce_min_scalar` finds: the least cell of each row.
use clf.Prelude.{ℕ, zero, suc, ◌+◌, ◌-◌, ◌*◌, ◌<◌, ◌≤◌, ◌≡◌, ◌⊎◌, refl, false, ok, arith}
use clf.Kernels.Elementwise.Agrees.{IsAhead}
use clf.Kernels.Floats.{Floats}
use clf.Kernels.Memory.Fill.{IsMapped, cell-ahead}
use clf.Kernels.Memory.{Memory}
use clf.Kernels.Reduce.Greatest.{Ordered, IsGreatest, row-IsGreatest, cell-filled}
use clf.Kernels.Reduce.Rows.{row_ends, reduce_max_scalar-filled}
use clf.Kernels.Memory.Blocks.{cells}
use clf.Kernels.Reduce.{reduce_min_scalar, lesser_of}
use mathlib.Core.List.{foldl}

-- The same floats with the order turned around, so that the greatest is the least.
abbrev reversed : Floats → Floats
reversed fp = record fp { lt = λ a b. fp.lt b a }

abbrev reversed_order : (fp : Floats) → Ordered fp → Ordered (reversed fp)
reversed_order fp ord = record {
  IsNumber = ord.IsNumber;
  irrefl = ord.irrefl;
  asym = λ a b less. ord.asym b a less;
  trans = λ a b c number over under. ord.trans c b a number under over;
}

module _ (fp : Floats) where
  open fp use {F, lt}

  -- `v` is one of `n` cells from `p` on, and none of them is less than it.
  pub record IsLeast (c : ℕ → F) (p n : ℕ) (v : F) : Type 0 where
    pub bound : (k : ℕ) → k < n → lt (c (p + k)) v ≡ false
    pub member : (k : ℕ) × (k < n) × (v ≡ c (p + k))

module _ (fp : Floats) (ord : Ordered fp) where
  open fp use {F}

  greatest→least :
      (c : ℕ → F) (p n : ℕ) (v : F) → IsGreatest (reversed fp) c p n v → IsLeast fp c p n v
  greatest→least c p n v h = record { bound = h.bound; member = h.member }

  -- Where no cell is a NaN, the scalar minimum returns, puts out for each row `r` the least of its
  -- cells, and changes no cell `q` outside the output, where the rows are not empty, the buffers are
  -- mapped, and the input starts at or behind the output's start, or ends before it.
  pub reduce_min_scalar-IsLeast :
      (m : Memory F) (out x rows cols r q : ℕ)
      → 0 < cols
      → r < rows
      → (q < out) ⊎ (out + rows ≤ q)
      → IsMapped m out rows
      → IsMapped m x (rows * cols)
      → IsAhead out x (rows * cols)
      → ((k : ℕ) → k < rows * cols → ord.IsNumber (m.cell (x + k)))
      → ((reduce_min_scalar fp out x rows cols m).0 ≡ ok tt)
        × IsLeast fp m.cell
            (x + r * cols)
            cols
            ((reduce_min_scalar fp out x rows cols m).1.cell (out + r))
        × ((reduce_min_scalar fp out x rows cols m).1.cell q ≡ m.cell q)
  reduce_min_scalar-IsLeast m out x rows zero r q pos less outside to from ahead numbers =
      absurd (omega arith)
  reduce_min_scalar-IsLeast m out x rows (suc n) r q pos less outside to from ahead numbers =
      let runs = (reduce_max_scalar-filled fp m out x rows (suc n) pos to from ahead).1 in
      let ends = row_ends r rows (suc n) less in
      let pred : suc n - 1 ≡ n = omega arith in
      rw (runs, cell-filled fp ord m out r rows _ less, pred)
        (
          refl,
          greatest→least m.cell (x + r * suc n) (suc n) _ (
              row-IsGreatest (reversed fp) (reversed_order fp ord) m.cell (x + r * suc n) n
                (λ k low.
                  let flat : x + r * suc n + k ≡ x + (r * suc n + k) = omega arith in
                  rw flat (numbers (r * suc n + k) (omega (arith, ends, low))))),
          cell-ahead m out
              (λ k.
                foldl (lesser_of fp) (m.cell (x + k * suc n)) (cells m.cell (x + k * suc n + 1) n))
              rows q outside,
        )
