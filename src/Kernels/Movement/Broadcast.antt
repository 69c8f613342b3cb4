-- ===== src/Kernels/Movement/Broadcast.antt =====
-- What the kernels that repeat or copy their input put out.
use clf.Prelude.{ℕ, ◌+◌, ◌%◌, ◌<◌, ◌≤◌, ◌≡◌, ◌⊎◌, refl, false, ok, arith, ◌==◌, ◌>>=◌}
use native.Mathlib.Nat.{mod-lt}
use clf.Kernels.Memory.{Memory, load, store}
use clf.Kernels.Memory.Fill.{filled, IsMapped, load-filled, store-filled, for_each_fill}
use clf.Kernels.Movement.{clf_simd_broadcast, clf_simd_expand, broadcast_expand_scalar}

module _ {F : Type 0} where
  -- Broadcast and Expand repeat an input that is not empty until the output is full, and change
  -- nothing else, where the two lie apart.
  pub clf_simd_broadcast-filled :
      (m : Memory F) (out x in_len out_len : ℕ)
      → 0 < in_len
      → IsMapped m out out_len
      → IsMapped m x in_len
      → (x + in_len ≤ out) ⊎ (out + out_len ≤ x)
      → (clf_simd_broadcast out x in_len out_len m
          ≡ (ok tt, filled m out (λ k. m.cell (x + k % in_len)) out_len))
        × (clf_simd_expand out x in_len out_len m
            ≡ (ok tt, filled m out (λ k. m.cell (x + k % in_len)) out_len))
  unfolding clf_simd_broadcast clf_simd_expand broadcast_expand_scalar
  clf_simd_broadcast-filled m out x in_len out_len pos to from apart = (repeats, repeats)
    where
      g : ℕ → F
      g k = m.cell (x + k % in_len)

      repeats : broadcast_expand_scalar out x in_len out_len m ≡ (ok tt, filled m out g out_len)
      repeats =
          let some_cells : (in_len == 0) ≡ false = ground (arith, pos) in
          rw some_cells (
            for_each_fill m out g (λ i. load (x + i % in_len) >>= λ v. store (out + i) v) out_len
              (λ k lt.
                let inside : k % in_len < in_len = mod-lt k pos in
                let before : (x + k % in_len < out) ⊎ (out + k ≤ x + k % in_len) =
                  ground (arith, apart, inside) in
                rw
                  (load-filled m out g k (x + k % in_len) before
                    (from (x + k % in_len) (omega arith) (omega (arith, inside))))
                  (store-filled m out g k _ refl (to (out + k) (omega arith) (omega arith)))))
