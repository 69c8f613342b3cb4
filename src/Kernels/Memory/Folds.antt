-- ===== src/Kernels/Memory/Folds.antt =====
-- Loops that read memory and keep a local variable.
use clf.Prelude.{ℕ, zero, suc, ◌+◌, ◌*◌, ◌≤◌, ◌<◌, ◌≡◌, ◌⊎◌, refl, ap, ◌∙◌, ok, arith, pure, ◌>>=◌}
use mathlib.Core.List.{foldl}
use clf.Kernels.Memory.Blocks.{cells}
use clf.Kernels.Memory.Fill.{filled, IsMapped, load-filled, store-filled, for_each_fill}
use clf.Kernels.Memory.{Memory, Kernel, load, store, for_each, fold_range}

-- A cell of a matrix lies in its buffer.
pub index_lt : (i j m n : ℕ) → i < m → j < n → i * n + j < m * n
index_lt i j m n p q = grind arith

-- A loop that reads only.
unfoldable pub folded : {A : Type 0} → (A → ℕ → A) → (n from : ℕ) → A → A
folded f zero from acc = acc
folded f (suc n) from acc = folded f n (from + 1) (f acc from)

module _ {F : Type 0} where
  pub fold_range_reads :
      {A : Type 0} (m : Memory F) (f : A → ℕ → A) (body : A → ℕ → Kernel F A) (n r from : ℕ)
      (acc : A)
      → ((b : A) (i : ℕ) → i < n → body b i m ≡ (ok (f b i), m))
      → from + r ≡ n
      → fold_range r from acc body m ≡ (ok (folded f r from acc), m)
  unfolding fold_range folded
  fold_range_reads m f body n zero from acc reads e = refl
  fold_range_reads m f body n (suc r) from acc reads e =
      rw (reads acc from (omega (arith, e)))
        (fold_range_reads m f body n r (from + 1) (f acc from) reads (omega (arith, e)))

  folded-cells :
      (f : F → F → F) (c : ℕ → F) (p n k : ℕ) (acc : F)
      → folded (λ a i. f a (c (p + i))) n k acc ≡ foldl f acc (cells c (p + k) n)
  unfolding folded
  folded-cells f c p zero k acc = refl
  folded-cells f c p (suc n) k acc =
      let next : p + (k + 1) ≡ p + k + 1 = omega arith in
      folded-cells f c p n (k + 1) (f acc (c (p + k)))
      ∙ ap (λ t. foldl f (f acc (c (p + k))) (cells c t n)) next

  -- Cells that are not written before they are read are put together.
  pub accumulate_reads :
      (m : Memory F) (out : ℕ) (g : ℕ → F) (r : ℕ) (f : F → F → F) (acc : F) (n p : ℕ)
      → (p + n ≤ out) ⊎ (out + r ≤ p)
      → IsMapped m p n
      → fold_range n 0 acc (λ a c. load (p + c) >>= λ v. pure (f a v)) (filled m out g r)
        ≡ (ok (foldl f acc (cells m.cell p n)), filled m out g r)
  accumulate_reads m out g r f acc n p apart mapped =
      let start : p + 0 ≡ p = omega arith in
      fold_range_reads (filled m out g r) (λ a i. f a (m.cell (p + i)))
        (λ a c. load (p + c) >>= λ v. pure (f a v)) n n 0 acc
        (λ a i less.
          let before : (p + i < out) ⊎ (out + r ≤ p + i) = ground (arith, apart) in
          rw
            (load-filled m out g r (p + i) before
              (mapped (p + i) (omega arith) (omega (arith, less))))
            refl)
        (omega arith)
      ∙ ap (λ v. (ok v, filled m out g r))
          (folded-cells f m.cell p n 0 acc ∙ ap (λ t. foldl f acc (cells m.cell t n)) start)

  -- For each row `f` of one value, put out one after the other.
  pub rows_filled :
      (m : Memory F) (out rows : ℕ) (f : F → F) (g : ℕ → F) (row : ℕ → Kernel F F)
      → IsMapped m out rows
      → ((r : ℕ)
          → r < rows
          → row r (filled m out (λ k. f (g k)) r) ≡ (ok (g r), filled m out (λ k. f (g k)) r))
      → for_each rows (λ r. row r >>= λ v. store (out + r) (f v)) m
        ≡ (ok tt, filled m out (λ k. f (g k)) rows)
  rows_filled m out rows f g row to reads =
      for_each_fill m out (λ k. f (g k)) (λ r. row r >>= λ v. store (out + r) (f v)) rows
        (λ r less. rw (reads r less) (
          store-filled m out (λ k. f (g k)) r (f (g r)) refl
            (to (out + r) (omega arith) (omega (arith, less)))))
