-- ===== src/Kernels/Reduce/Greatest.antt =====
-- What `reduce_max_scalar` finds: the greatest cell of each row.
use mathlib.Core.List.{foldl}
use clf.Prelude.{
  ℕ, zero, suc, ◌+◌, ◌-◌, ◌*◌, ◌<◌, ◌≡◌, ◌⊎◌, refl, sym, ap, ◌∙◌, true, false, ok, arith, inl, inr,
  Bool-cases, leb, ltb,
}
use clf.Kernels.Elementwise.Agrees.{IsAhead}
use clf.Kernels.Floats.{Floats}
use clf.Kernels.Memory.Blocks.{cells}
use clf.Kernels.Memory.Fill.{filled, IsMapped}
use clf.Kernels.Memory.{Memory}
use clf.Kernels.Reduce.Rows.{row_ends, reduce_max_scalar-filled}
use clf.Kernels.Reduce.{greater_of, reduce_max_scalar}

-- The order of floats: `IsNumber` holds of those that are not a NaN.
pub record Ordered (fp : Floats) : Type 1 where
  pub IsNumber : fp.F → Type 0
  pub irrefl : (a : fp.F) → fp.lt a a ≡ false
  pub asym : (a b : fp.F) → fp.lt a b ≡ true → fp.lt b a ≡ false
  pub trans :
      (a b c : fp.F) → IsNumber b → fp.lt b a ≡ false → fp.lt c b ≡ false → fp.lt c a ≡ false

module _ (fp : Floats) where
  open fp use {F, lt}

  -- `v` is one of `n` cells from `p` on, and not less than any of them.
  pub record IsGreatest (c : ℕ → F) (p n : ℕ) (v : F) : Type 0 where
    pub bound : (k : ℕ) → k < n → lt v (c (p + k)) ≡ false
    pub member : (k : ℕ) × (k < n) × (v ≡ c (p + k))

module _ (fp : Floats) (ord : Ordered fp) where
  open fp use {F, lt}

  kept : (a v : F) → ord.IsNumber a → ord.IsNumber v → ord.IsNumber (greater_of fp a v)
  kept a v na nv = elim (Bool-cases (lt a v)) [ inl less ↦ rw less nv | inr more ↦ rw more na ]

  above : (a v : F) → (lt (greater_of fp a v) a ≡ false) × (lt (greater_of fp a v) v ≡ false)
  above a v = elim (Bool-cases (lt a v)) [
    | inl less ↦ rw less (ord.asym a v less, ord.irrefl v)
    | inr more ↦ rw more (ord.irrefl a, more)
  ]

  -- The greatest of `acc` and `n` cells is not less than any of them, and is one of them.
  greatest :
      (c : ℕ → F) (n p : ℕ) (acc : F)
      → ord.IsNumber acc
      → ((k : ℕ) → k < n → ord.IsNumber (c (p + k)))
      → (lt (foldl (greater_of fp) acc (cells c p n)) acc ≡ false)
        × ((k : ℕ) → k < n → lt (foldl (greater_of fp) acc (cells c p n)) (c (p + k)) ≡ false)
        × ((foldl (greater_of fp) acc (cells c p n) ≡ acc)
            ⊎ ((k : ℕ) × (k < n) × (foldl (greater_of fp) acc (cells c p n) ≡ c (p + k))))
  greatest c zero p acc na ns = (ord.irrefl acc, λ k less. absurd (omega arith), inl refl)
  greatest c (suc n) p acc na ns =
      let start : p + 0 ≡ p = omega arith in
      let nv : ord.IsNumber (c p) = rw start at (ns 0 (omega arith)) in
      let shift : (k : ℕ) → p + 1 + k ≡ p + (k + 1) = λ k. omega arith in
      let a' = greater_of fp acc (c p) in
      let na' = kept acc (c p) na nv in
      let (over_acc, over_cells, found) =
        greatest c n (p + 1) a' na' (λ k less. rw (shift k) (ns (k + 1) (omega (arith, less)))) in
      (
        ord.trans acc a' _ na' (above acc (c p)).0 over_acc,
        each nv na' over_acc over_cells,
        where_found found,
      )
    where
      best : F
      best = foldl (greater_of fp) (greater_of fp acc (c p)) (cells c (p + 1) n)

      each :
          ord.IsNumber (c p)
          → ord.IsNumber (greater_of fp acc (c p))
          → lt best (greater_of fp acc (c p)) ≡ false
          → ((k : ℕ) → k < n → lt best (c (p + 1 + k)) ≡ false)
          → (k : ℕ) → k < suc n
          → lt best (c (p + k)) ≡ false
      each nv na' over_acc over_cells zero less =
          let start : p + 0 ≡ p = omega arith in
          rw start (ord.trans (c p) (greater_of fp acc (c p)) best na' (above acc (c p)).1 over_acc)
      each nv na' over_acc over_cells (suc k) less =
          let shift : p + suc k ≡ p + 1 + k = omega arith in rw shift (over_cells k (omega arith))

      where_found :
          (best ≡ greater_of fp acc (c p)) ⊎ ((k : ℕ) × (k < n) × (best ≡ c (p + 1 + k)))
          → (best ≡ acc) ⊎ ((k : ℕ) × (k < suc n) × (best ≡ c (p + k)))
      where_found (inl e) =
          let start : p + 0 ≡ p = omega arith in
          elim (Bool-cases (lt acc (c p))) [
            | inl less ↦ inr (0, omega arith, e ∙ (rw (less, start) refl))
            | inr more ↦ inl (e ∙ (rw more refl))
          ]
      where_found (inr (k, less, e)) =
          let shift : p + suc k ≡ p + 1 + k = omega arith in
          inr (suc k, omega arith, e ∙ ap c (sym shift))

  pub row-IsGreatest :
      (c : ℕ → F) (p n : ℕ)
      → ((k : ℕ) → k < suc n → ord.IsNumber (c (p + k)))
      → IsGreatest fp c p (suc n) (foldl (greater_of fp) (c p) (cells c (p + 1) n))
  row-IsGreatest c p n ns =
      let start : p + 0 ≡ p = omega arith in
      let shift : (k : ℕ) → p + 1 + k ≡ p + suc k = λ k. omega arith in
      let (over_first, over_rest, found) =
        greatest c n (p + 1) (c p) (rw start at (ns 0 (omega arith)))
          (λ k less. rw (shift k) (ns (suc k) (omega (arith, less)))) in
      record { bound = each start shift over_first over_rest; member = place start shift found }
    where
      best : F
      best = foldl (greater_of fp) (c p) (cells c (p + 1) n)

      each :
          p + 0 ≡ p
          → ((k : ℕ) → p + 1 + k ≡ p + suc k)
          → lt best (c p) ≡ false
          → ((k : ℕ) → k < n → lt best (c (p + 1 + k)) ≡ false)
          → (k : ℕ) → k < suc n
          → lt best (c (p + k)) ≡ false
      each start shift first rest zero less = rw start first
      each start shift first rest (suc k) less = rw (sym (shift k)) (rest k (omega arith))

      place :
          p + 0 ≡ p
          → ((k : ℕ) → p + 1 + k ≡ p + suc k)
          → (best ≡ c p) ⊎ ((k : ℕ) × (k < n) × (best ≡ c (p + 1 + k)))
          → (k : ℕ) × (k < suc n) × (best ≡ c (p + k))
      place start shift (inl e) = (0, omega arith, e ∙ ap c (sym start))
      place start shift (inr (k, less, e)) = (suc k, omega arith, e ∙ ap c (shift k))

  pub cell-filled :
      (m : Memory F) (out r rows : ℕ) (g : ℕ → F)
      → r < rows
      → (filled m out g rows).cell (out + r) ≡ g r
  cell-filled m out r rows g less =
      let inner : out + r - out ≡ r = omega arith in
      let low : leb out (out + r) ≡ true = ground arith in
      let high : ltb (out + r) (out + rows) ≡ true = ground arith in rw (low, high, inner) refl

  -- Where no cell is a NaN, the scalar maximum returns, and puts out for each row the greatest of its
  -- cells, where the rows are not empty, the buffers are mapped, and the input starts at or behind the
  -- output's start, or ends before it.
  pub reduce_max_scalar-IsGreatest :
      (m : Memory F) (out x rows cols r : ℕ)
      → 0 < cols
      → r < rows
      → IsMapped m out rows
      → IsMapped m x (rows * cols)
      → IsAhead out x (rows * cols)
      → ((k : ℕ) → k < rows * cols → ord.IsNumber (m.cell (x + k)))
      → ((reduce_max_scalar fp out x rows cols m).0 ≡ ok tt)
        × IsGreatest fp m.cell
            (x + r * cols)
            cols
            ((reduce_max_scalar fp out x rows cols m).1.cell (out + r))
  reduce_max_scalar-IsGreatest m out x rows zero r pos less to from ahead numbers =
      absurd (omega arith)
  reduce_max_scalar-IsGreatest m out x rows (suc n) r pos less to from ahead numbers =
      let runs = (reduce_max_scalar-filled fp m out x rows (suc n) pos to from ahead).0 in
      let ends = row_ends r rows (suc n) less in
      let pred : suc n - 1 ≡ n = omega arith in
      rw (runs, cell-filled m out r rows _ less, pred)
        (
          refl,
          row-IsGreatest m.cell (x + r * suc n) n (λ k low.
              let flat : x + r * suc n + k ≡ x + (r * suc n + k) = omega arith in
              rw flat (numbers (r * suc n + k) (omega (arith, ends, low)))),
        )
