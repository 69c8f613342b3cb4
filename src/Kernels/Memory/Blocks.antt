-- ===== src/Kernels/Memory/Blocks.antt =====
-- Runs of neighbouring cells, read and written at once.
use clf.Prelude.{ℕ, zero, suc, ◌+◌, ◌≤◌, ◌<◌, ◌≡◌, ◌⊎◌, refl, ap, List, [], ◌∷◌, map, ok, arith}
use clf.Kernels.Lanes.{zip_with}
use clf.Kernels.Memory.{Memory, store, load_n, store_all}
use clf.Kernels.Memory.Fill.{filled, IsMapped, load-filled, store-filled}

module _ {F : Type 0} where
  -- `c p`, …, `c (p + n - 1)`
  abbrev pub cells : (ℕ → F) → (p n : ℕ) → List F
  cells c p zero = []
  cells c p (suc n) = c p ∷ cells c (p + 1) n

  pub map-cells :
      (f : F → F) (c : ℕ → F) (x n k p : ℕ)
      → p ≡ x + k
      → map f (cells c p n) ≡ cells (λ j. f (c (x + j))) k n
  map-cells f c x zero k p e = refl
  map-cells f c x (suc n) k p e =
      rw e (ap (λ t. f (c (x + k)) ∷ t) (map-cells f c x n (k + 1) (x + k + 1) (omega arith)))

  pub zip_with-cells :
      (f : F → F → F) (c : ℕ → F) (a b n k p q : ℕ)
      → p ≡ a + k
      → q ≡ b + k
      → zip_with f (cells c p n) (cells c q n) ≡ cells (λ j. f (c (a + j)) (c (b + j))) k n
  zip_with-cells f c a b zero k p q e d = refl
  zip_with-cells f c a b (suc n) k p q e d =
      rw (e, d)
        (ap (λ t. f (c (a + k)) (c (b + k)) ∷ t)
          (zip_with-cells f c a b n (k + 1) (a + k + 1) (b + k + 1) (omega arith) (omega arith)))

  pub load_n-filled :
      (m : Memory F) (out : ℕ) (g : ℕ → F) (k n p : ℕ)
      → (p + n ≤ out) ⊎ (out + k ≤ p)
      → IsMapped m p n
      → load_n n p (filled m out g k) ≡ (ok (cells m.cell p n), filled m out g k)
  unfolding load_n
  load_n-filled m out g k zero p ahead mapped = refl
  load_n-filled m out g k (suc n) p ahead mapped =
      let before : (p < out) ⊎ (out + k ≤ p) = ground (arith, ahead) in
      let after : (p + 1 + n ≤ out) ⊎ (out + k ≤ p + 1) = ground (arith, ahead) in
      rw (
        load-filled m out g k p before (mapped p (omega arith) (omega arith)),
        load_n-filled m out g k n (p + 1) after
            (λ q low high. mapped q (omega arith) (omega arith)),
      )

  pub store_all-filled :
      (m : Memory F) (out : ℕ) (g : ℕ → F) (n k p : ℕ)
      → p ≡ out + k
      → IsMapped m p n
      → store_all p (cells g k n) (filled m out g k) ≡ (ok tt, filled m out g (k + n))
  unfolding store_all
  store_all-filled m out g zero k p e mapped = let same : k + 0 ≡ k = omega arith in rw same
  store_all-filled m out g (suc n) k p e mapped =
      let shift : k + suc n ≡ k + 1 + n = omega arith in
      let first : store p (g k) (filled m out g k) ≡ (ok tt, filled m out g (k + 1)) =
        rw e (store-filled m out g k (g k) refl (mapped (out + k) (omega arith) (omega arith))) in
      rw (shift, first)
        (store_all-filled m out g n (k + 1) (p + 1) (omega arith)
          (λ q low high. mapped q (omega arith) (omega arith)))
