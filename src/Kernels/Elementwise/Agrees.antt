-- ===== src/Kernels/Elementwise/Agrees.antt =====
-- What the elementwise loops compute: the scalar loop and the loop by blocks fill the output alike.
use clf.Prelude.{
  ℕ, ◌>>=◌, if◌then◌else◌, ltb, ◌*◌, ◌/◌, ◌+◌, ◌-◌, ◌≤◌, ◌<◌, ◌≡◌, ◌⊎◌, refl, ap, ap₂, ◌∙◌, Bool,
  true, false, map, ok, arith,
}
use clf.Kernels.Lanes.{zip_with, loadu_ps, storeu_ps}
use clf.Kernels.Memory.{Memory, Kernel, load, store}
use clf.Kernels.Memory.Fill.{
  filled, IsMapped, cell-ahead, load-filled, store-filled, for_each_fill, filled-ext,
  blocks_then_tail,
}
use clf.Kernels.Memory.Blocks.{map-cells, zip_with-cells, load_n-filled, store_all-filled}
use clf.Kernels.Elementwise.{map_scalar, zip_scalar, map_avx2, zip_avx2}

-- An input of `n` cells that may be the output itself, lie behind its start, or lie before it.
abbrev pub IsAhead : (out a n : ℕ) → Type 0
IsAhead out a n = (out ≤ a) ⊎ (a + n ≤ out)

module _ {F : Type 0} where
  abbrev pub Maps : (F → F) → ((out x count : ℕ) → Kernel F (Unit {0})) → Type 0
  Maps f loop =
      (m : Memory F) (out x n : ℕ)
      → IsMapped m out n
      → IsMapped m x n
      → IsAhead out x n
      → loop out x n m ≡ (ok tt, filled m out (λ k. f (m.cell (x + k))) n)

  pub map_scalar_lem : (f : F → F) → Maps f (map_scalar f)
  unfolding map_scalar
  map_scalar_lem f m out x n to from ahead =
      for_each_fill m out (λ k. f (m.cell (x + k)))
        (λ i. load (x + i) >>= λ v. store (out + i) (f v)) n
        (λ k lt.
          let before : (x + k < out) ⊎ (out + k ≤ x + k) = ground (arith, ahead) in
          rw
            (load-filled m out (λ k. f (m.cell (x + k))) k (x + k) before
              (from (x + k) (omega arith) (omega arith)))
            (store-filled m out (λ k. f (m.cell (x + k))) k _ refl
              (to (out + k) (omega arith) (omega arith))))

  -- A loop that puts out `f` of two inputs, over buffers that are mapped and do not overlap the cells
  -- that are still to be read.
  abbrev pub Zips : (F → F → F) → ((out a b count : ℕ) → Kernel F (Unit {0})) → Type 0
  Zips f loop =
      (m : Memory F) (out a b n : ℕ)
      → IsMapped m out n
      → IsMapped m a n
      → IsMapped m b n
      → IsAhead out a n
      → IsAhead out b n
      → loop out a b n m ≡ (ok tt, filled m out (λ k. f (m.cell (a + k)) (m.cell (b + k))) n)

  pub zip_scalar_lem : (f : F → F → F) → Zips f (zip_scalar f)
  unfolding zip_scalar
  zip_scalar_lem f m out a b n to first second ahead_a ahead_b =
      let g = λ (k : ℕ). f (m.cell (a + k)) (m.cell (b + k)) in
      for_each_fill m out g
        (λ i. load (a + i) >>= λ va. load (b + i) >>= λ vb. store (out + i) (f va vb)) n
        (λ k lt.
          let before_a : (a + k < out) ⊎ (out + k ≤ a + k) = ground (arith, ahead_a) in
          let before_b : (b + k < out) ⊎ (out + k ≤ b + k) = ground (arith, ahead_b) in
          rw
            (
              load-filled m out g k (a + k) before_a (first (a + k) (omega arith) (omega arith)),
              load-filled m out g k (b + k) before_b (second (b + k) (omega arith) (omega arith)),
            )
            (store-filled m out g k _ refl (to (out + k) (omega arith) (omega arith))))

  -- The blocks of `zip_avx2`, as far as there are eight lanes.
  zip_blocks :
      (lane : F → F → F) (m : Memory F) (out a b n k : ℕ)
      → IsMapped m out n
      → IsMapped m a n
      → IsMapped m b n
      → IsAhead out a n
      → IsAhead out b n
      → k + 8 ≤ n
      → let g = λ (j : ℕ). lane (m.cell (a + j)) (m.cell (b + j)) in
        (loadu_ps (a + k) >>= λ va.
        loadu_ps (b + k) >>= λ vb. storeu_ps (out + k) (zip_with lane va vb))
          (filled m out g k)
        ≡ (ok tt, filled m out g (k + 8))
  zip_blocks lane m out a b n k to first second ahead_a ahead_b room =
      let g = λ (j : ℕ). lane (m.cell (a + j)) (m.cell (b + j)) in
      let before_a : (a + k + 8 ≤ out) ⊎ (out + k ≤ a + k) = ground (arith, ahead_a) in
      let before_b : (b + k + 8 ≤ out) ⊎ (out + k ≤ b + k) = ground (arith, ahead_b) in
      rw
        (
          load_n-filled m out g k 8 (a + k) before_a
              (λ q low high. first q (omega arith) (omega arith)),
          load_n-filled m out g k 8 (b + k) before_b
              (λ q low high. second q (omega arith) (omega arith)),
          zip_with-cells lane m.cell a b 8 k (a + k) (b + k) refl refl,
        )
        (store_all-filled m out g 8 k (out + k) refl
          (λ q low high. to q (omega arith) (omega arith)))

  -- What the tail reads has not been written.
  tail_cell :
      (m : Memory F) (out a n : ℕ) (g : ℕ → F) (i : ℕ)
      → IsAhead out a n
      → i < n - n / 8 * 8
      → (filled m out g (n / 8 * 8)).cell (a + n / 8 * 8 + i) ≡ m.cell (a + (n / 8 * 8 + i))
  tail_cell m out a n g i ahead lt =
      let last = n / 8 * 8 in
      let where_it_is : a + last + i ≡ a + (last + i) = omega arith in
      let clear : (a + last + i < out) ⊎ (out + last ≤ a + last + i) = ground (arith, ahead) in
      cell-ahead m out g last (a + last + i) clear ∙ ap m.cell where_it_is

  if_same : (b : Bool) (u v : F) → u ≡ v → (if b then u else v) ≡ v
  if_same true u v e = e
  if_same false u v e = refl

  -- Whole blocks by `lane`, the rest by the scalar loop.
  pub zip_avx2_lem :
      (lane f : F → F → F) (tail : (out a b count : ℕ) → Kernel F (Unit {0}))
      → Zips f tail
      → (m : Memory F) (out a b n : ℕ) → IsMapped m out n
      → IsMapped m a n
      → IsMapped m b n
      → IsAhead out a n
      → IsAhead out b n
      → zip_avx2 lane tail out a b n m ≡ (
        ok tt,
        filled m out
            (λ k.
              if ltb k (n / 8 * 8)
              then lane (m.cell (a + k)) (m.cell (b + k))
              else f (m.cell (a + k)) (m.cell (b + k)))
            n,
      )
  unfolding zip_avx2
  zip_avx2_lem lane f tail zips m out a b n to first second ahead_a ahead_b =
      let g : ℕ → F = λ j. lane (m.cell (a + j)) (m.cell (b + j)) in
      let last = n / 8 * 8 in
      blocks_then_tail m out n g (λ j. f (m.cell (a + j)) (m.cell (b + j)))
        (λ i. loadu_ps (a + i) >>= λ va.
          loadu_ps (b + i) >>= λ vb. storeu_ps (out + i) (zip_with lane va vb))
        (λ i. tail (out + i) (a + i) (b + i) (n - i))
        (λ k room. zip_blocks lane m out a b n k to first second ahead_a ahead_b room)
        (zips (filled m out g last) (out + last) (a + last) (b + last) (n - last)
            (λ q low high. to q (omega arith) (omega arith))
            (λ q low high. first q (omega arith) (omega arith))
            (λ q low high. second q (omega arith) (omega arith)) (ground (arith, ahead_a))
            (ground (arith, ahead_b))
          ∙ ap (λ t. (ok tt, t))
              (filled-ext (filled m out g last) (out + last) _ _ (n - last) (λ i lt.
                ap₂ f (tail_cell m out a n g i ahead_a lt) (tail_cell m out b n g i ahead_b lt))))

  -- Where a lane is worked on as a float is, the two loops put out the same.
  pub zip_avx2-Zips :
      (lane f : F → F → F) (tail : (out a b count : ℕ) → Kernel F (Unit {0}))
      → Zips f tail
      → ((x y : F) → lane x y ≡ f x y)
      → Zips f (zip_avx2 lane tail)
  zip_avx2-Zips lane f tail zips same m out a b n to first second ahead_a ahead_b =
      zip_avx2_lem lane f tail zips m out a b n to first second ahead_a ahead_b
      ∙ ap (λ t. (ok tt, t))
          (filled-ext m out _ (λ k. f (m.cell (a + k)) (m.cell (b + k))) n
            (λ k lt. if_same (ltb k (n / 8 * 8)) _ _ (same _ _)))

  map_blocks :
      (lane : F → F) (m : Memory F) (out x n k : ℕ)
      → IsMapped m out n
      → IsMapped m x n
      → IsAhead out x n
      → k + 8 ≤ n
      → let g = λ (j : ℕ). lane (m.cell (x + j)) in
        (loadu_ps (x + k) >>= λ v. storeu_ps (out + k) (map lane v)) (filled m out g k)
        ≡ (ok tt, filled m out g (k + 8))
  map_blocks lane m out x n k to from ahead room =
      let g = λ (j : ℕ). lane (m.cell (x + j)) in
      let before : (x + k + 8 ≤ out) ⊎ (out + k ≤ x + k) = ground (arith, ahead) in
      rw
        (
          load_n-filled m out g k 8 (x + k) before
              (λ q low high. from q (omega arith) (omega arith)),
          map-cells lane m.cell x 8 k (x + k) refl,
        )
        (store_all-filled m out g 8 k (out + k) refl
          (λ q low high. to q (omega arith) (omega arith)))

  pub map_avx2_lem :
      (lane f : F → F) (m : Memory F) (out x n : ℕ)
      → IsMapped m out n
      → IsMapped m x n
      → IsAhead out x n
      → map_avx2 lane (map_scalar f) out x n m ≡ (
        ok tt,
        filled m out
            (λ k. if ltb k (n / 8 * 8) then lane (m.cell (x + k)) else f (m.cell (x + k)))
            n,
      )
  unfolding map_avx2
  map_avx2_lem lane f m out x n to from ahead =
      let g : ℕ → F = λ j. lane (m.cell (x + j)) in
      let last = n / 8 * 8 in
      blocks_then_tail m out n g (λ j. f (m.cell (x + j)))
        (λ i. loadu_ps (x + i) >>= λ v. storeu_ps (out + i) (map lane v))
        (λ i. map_scalar f (out + i) (x + i) (n - i))
        (λ k room. map_blocks lane m out x n k to from ahead room)
        (map_scalar_lem f (filled m out g last) (out + last) (x + last) (n - last)
            (λ q low high. to q (omega arith) (omega arith))
            (λ q low high. from q (omega arith) (omega arith)) (ground (arith, ahead))
          ∙ ap (λ t. (ok tt, t))
              (filled-ext (filled m out g last) (out + last) _ _ (n - last)
                (λ i lt. ap f (tail_cell m out x n g i ahead lt))))

  pub map_avx2-Maps :
      (lane f : F → F) → ((x : F) → lane x ≡ f x) → Maps f (map_avx2 lane (map_scalar f))
  map_avx2-Maps lane f same m out x n to from ahead =
      map_avx2_lem lane f m out x n to from ahead
      ∙ ap (λ t. (ok tt, t))
          (filled-ext m out _ (λ k. f (m.cell (x + k))) n
            (λ k lt. if_same (ltb k (n / 8 * 8)) _ _ (same _)))
