-- ===== src/Kernels/Memory/Fill.antt =====
-- A buffer filled from its start, and the loops that fill one.
use mathlib.Core.Path.{fun_ext}
use clf.Prelude.{
  ℕ, zero, suc, ◌+◌, ◌-◌, ◌*◌, ◌/◌, ◌%◌, ◌≤◌, ◌<◌, ◌≡◌, ◌⊎◌, sym, ap, ◌∙◌, true, ◌&&◌, inl, inr,
  Bool-cases, ok, arith, leb, ltb, if◌then◌else◌, leb→le, ◌>>=◌,
}
use clf.Kernels.Memory.{Memory, Kernel, load, store, update, for_range, for_each, while_blocks}

module _ {F : Type 0} where
  -- `m` with `g 0`, …, `g (k - 1)` in the cells from `out` on.
  abbrev pub filled : Memory F → (out : ℕ) → (ℕ → F) → (k : ℕ) → Memory F
  filled m out g k = record m {
    cell = λ p. if leb out p && ltb p (out + k) then g (p - out) else m.cell p;
  }

  -- The buffer of `n` cells at `p` is mapped.
  abbrev pub IsMapped : Memory F → (p n : ℕ) → Type 0
  IsMapped m p n = (q : ℕ) → p ≤ q → q < p + n → m.mapped q ≡ true

  cell-zero : (m : Memory F) (out : ℕ) (g : ℕ → F) (p : ℕ) → (filled m out g 0).cell p ≡ m.cell p
  cell-zero m out g p = ground arith

  pub filled-zero : (m : Memory F) (out : ℕ) (g : ℕ → F) → filled m out g 0 ≡ m
  filled-zero m out g = ap (λ c. record m { cell = c }) (fun_ext (cell-zero m out g))

  cell-next :
      (m : Memory F) (out : ℕ) (g : ℕ → F) (k p : ℕ)
      → update (filled m out g k).cell (out + k) (g k) p ≡ (filled m out g (k + 1)).cell p
  cell-next m out g k p = ground arith

  pub store-filled :
      (m : Memory F) (out : ℕ) (g : ℕ → F) (k : ℕ) (v : F)
      → v ≡ g k
      → m.mapped (out + k) ≡ true
      → store (out + k) v (filled m out g k) ≡ (ok tt, filled m out g (k + 1))
  unfolding store
  store-filled m out g k v e h =
      rw (e, h) (ap (λ c. (ok tt, record m { cell = c })) (fun_ext (cell-next m out g k)))

  pub cell-ahead :
      (m : Memory F) (out : ℕ) (g : ℕ → F) (k p : ℕ)
      → (p < out) ⊎ (out + k ≤ p)
      → (filled m out g k).cell p ≡ m.cell p
  cell-ahead m out g k p ahead = ground arith

  pub load-filled :
      (m : Memory F) (out : ℕ) (g : ℕ → F) (k p : ℕ)
      → (p < out) ⊎ (out + k ≤ p)
      → m.mapped p ≡ true
      → load p (filled m out g k) ≡ (ok (m.cell p), filled m out g k)
  unfolding load
  load-filled m out g k p ahead h =
      rw h (ap (λ x. (ok x, filled m out g k)) (cell-ahead m out g k p ahead))

  cell-cell :
      (m : Memory F) (out : ℕ) (g : ℕ → F) (k n p : ℕ)
      → (filled (filled m out g k) (out + k) (λ i. g (k + i)) n).cell p
        ≡ (filled m out g (k + n)).cell p
  cell-cell m out g k n p = ground arith

  pub filled-filled :
      (m : Memory F) (out : ℕ) (g : ℕ → F) (k n : ℕ)
      → filled (filled m out g k) (out + k) (λ i. g (k + i)) n ≡ filled m out g (k + n)
  filled-filled m out g k n = ap (λ c. record m { cell = c }) (fun_ext (cell-cell m out g k n))

  pub for_range_fill :
      (m : Memory F) (out : ℕ) (g : ℕ → F) (body : ℕ → Kernel F (Unit {0})) (r i n : ℕ)
      → i + r ≡ n
      → ((k : ℕ) → k < n → body k (filled m out g k) ≡ (ok tt, filled m out g (k + 1)))
      → for_range r i body (filled m out g i) ≡ (ok tt, filled m out g n)
  unfolding for_range
  for_range_fill m out g body zero i n e step = let e' : i ≡ n = omega (arith, e) in rw e'
  for_range_fill m out g body (suc r) i n e step =
      rw (step i (omega arith)) (for_range_fill m out g body r (i + 1) n (omega arith) step)

  -- A loop whose round `k` finds the first `k` cells filled and fills the next.
  pub for_each_fill :
      (m : Memory F) (out : ℕ) (g : ℕ → F) (body : ℕ → Kernel F (Unit {0})) (n : ℕ)
      → ((k : ℕ) → k < n → body k (filled m out g k) ≡ (ok tt, filled m out g (k + 1)))
      → for_each n body m ≡ (ok tt, filled m out g n)
  for_each_fill m out g body n step =
      ap (for_each n body) (sym (filled-zero m out g))
      ∙ for_range_fill m out g body n 0 n (omega arith) step

  cell-ext :
      (m : Memory F) (out : ℕ) (g h : ℕ → F) (k : ℕ) (same : (i : ℕ) → i < k → g i ≡ h i) (p : ℕ)
      → (filled m out g k).cell p ≡ (filled m out h k).cell p
  cell-ext m out g h k same p = ground (arith, same (p - out))

  -- Only what is written matters.
  pub filled-ext :
      (m : Memory F) (out : ℕ) (g h : ℕ → F) (k : ℕ)
      → ((i : ℕ) → i < k → g i ≡ h i)
      → filled m out g k ≡ filled m out h k
  filled-ext m out g h k same =
      ap (λ c. record m { cell = c }) (fun_ext (cell-ext m out g h k same))

  -- Whole blocks, with any fuel beyond the count.
  pub while_blocks_fill :
      (m : Memory F) (out : ℕ) (g : ℕ → F) (body : ℕ → Kernel F (Unit {0})) (n fuel i : ℕ)
      → n < fuel + i
      → i % 8 ≡ 0
      → i ≤ n
      → ((k : ℕ) → k + 8 ≤ n → body k (filled m out g k) ≡ (ok tt, filled m out g (k + 8)))
      → while_blocks fuel 8 i n body (filled m out g i)
        ≡ (ok (n / 8 * 8), filled m out g (n / 8 * 8))
  unfolding while_blocks
  while_blocks_fill m out g body n zero i enough round le step = absurd (omega arith)
  while_blocks_fill m out g body n (suc fuel) i enough round le step =
      elim (Bool-cases (leb (i + 8) n)) [
        | inl more ↦
            rw (more, step i (leb→le _ _ more))
              (while_blocks_fill m out g body n fuel (i + 8) (omega arith) (omega arith)
                (leb→le _ _ more) step)
        | inr short ↦ let last : n / 8 * 8 ≡ i = ground (arith, short) in rw (short, last)
      ]

  -- Whole blocks that fill with `g`, and a tail that fills the rest with `h`.
  pub blocks_then_tail :
      (m : Memory F) (out n : ℕ) (g h : ℕ → F) (body tail : ℕ → Kernel F (Unit {0}))
      → ((k : ℕ) → k + 8 ≤ n → body k (filled m out g k) ≡ (ok tt, filled m out g (k + 8)))
      → tail (n / 8 * 8) (filled m out g (n / 8 * 8)) ≡ (
        ok tt,
        filled
            (filled m out g (n / 8 * 8))
            (out + n / 8 * 8)
            (λ i. h (n / 8 * 8 + i))
            (n - n / 8 * 8),
      )
      → (while_blocks (n + 1) 8 0 n body >>= tail) m
        ≡ (ok tt, filled m out (λ k. if ltb k (n / 8 * 8) then g k else h k) n)
  blocks_then_tail m out n g h body tail step rest =
      let last = n / 8 * 8 in
      let mix : ℕ → F = λ k. if ltb k last then g k else h k in
      let blocks : while_blocks (n + 1) 8 0 n body m ≡ (ok last, filled m out g last) =
        ap (while_blocks (n + 1) 8 0 n body) (sym (filled-zero m out g))
        ∙ while_blocks_fill m out g body n (n + 1) 0 (omega arith) (omega arith) (omega arith)
            step in
      let low : filled m out g last ≡ filled m out mix last =
        filled-ext m out g mix last (λ i lt. ground arith) in
      let high : filled (filled m out mix last) (out + last) (λ i. h (last + i)) (n - last)
          ≡ filled (filled m out mix last) (out + last) (λ i. mix (last + i)) (n - last) =
        filled-ext (filled m out mix last) (out + last) (λ i. h (last + i)) (λ i. mix (last + i))
          (n - last) (λ i lt. ground arith) in
      let whole : last + (n - last) ≡ n = omega arith in
      rw blocks (
        rest
        ∙ ap (λ t. (ok tt, t))
            (ap (λ b. filled b (out + last) (λ i. h (last + i)) (n - last)) low
              ∙ high
              ∙ filled-filled m out mix last (n - last)
              ∙ ap (filled m out mix) whole))
