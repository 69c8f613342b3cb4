-- ===== src/Kernels/Movement.antt =====
-- kernels/simd/src/lib.rs: the kernels that move floats and do not compute with them.
pub mod Broadcast
use clf.Prelude.{
  ℕ, ◌+◌, ◌-◌, ◌*◌, ◌/◌, ◌%◌, ◌^◌, min, Bool, not, ◌&&◌, ◌||◌, Action, pure, raise, ◌>>=◌, ◌>>◌,
  ltb, leb, ◌==◌, if◌then◌else◌,
}
use clf.Bytes.{u32_mod, u64_mod}
use clf.Kernels.Floats.{Floats, I32, pos, negsuc}
use clf.Kernels.Memory.{Kernel, load, store, for_each, copy_nonoverlapping, done, clamp_bounds}

module _ {F : Type 0} where
  -- The body of `clf_simd_reshape`, `_dropout`, `_concatenate`, `_split` and `_slice`.
  abbrev copy_entry : (out x count : ℕ) → Kernel F (Unit {0})
  copy_entry out x count =
      if count == 0 then done else if out == x then done else copy_nonoverlapping x out count

  unfoldable pub clf_simd_reshape : (out x count : ℕ) → Kernel F (Unit {0})
  clf_simd_reshape out x count = copy_entry out x count

  unfoldable pub clf_simd_dropout : (out x count : ℕ) → Kernel F (Unit {0})
  clf_simd_dropout out x count = copy_entry out x count

  unfoldable pub clf_simd_concatenate : (out x count : ℕ) → Kernel F (Unit {0})
  clf_simd_concatenate out x count = copy_entry out x count

  unfoldable pub clf_simd_split : (out x count : ℕ) → Kernel F (Unit {0})
  clf_simd_split out x count = copy_entry out x count

  unfoldable pub clf_simd_slice : (out x count : ℕ) → Kernel F (Unit {0})
  clf_simd_slice out x count = copy_entry out x count

  unfoldable pub transpose_scalar : (out x rows cols : ℕ) → Kernel F (Unit {0})
  transpose_scalar out x rows cols = for_each rows (λ row.
      for_each cols
        (λ col. load (x + (row * cols + col)) >>= λ v. store (out + (col * rows + row)) v))

  unfoldable pub clf_simd_transpose : (out x rows cols : ℕ) → Kernel F (Unit {0})
  unfolding transpose_scalar
  clf_simd_transpose out x rows cols =
      if rows == 0 || cols == 0 then done else transpose_scalar out x rows cols

  unfoldable pub clf_simd_permute : (out x in_len out_len rows : ℕ) → Kernel F (Unit {0})
  unfolding transpose_scalar
  clf_simd_permute out x in_len out_len rows =
      if in_len == 0 || not (out_len == in_len)
      then (if not (out == x) && ltb 0 out_len
          then copy_nonoverlapping x out (min out_len in_len)
          else done)
      else if ltb 0 rows && (in_len % rows == 0)
      then transpose_scalar out x rows (in_len / rows)
      else copy_nonoverlapping x out in_len

  unfoldable pub broadcast_expand_scalar : (out in_ptr in_len out_len : ℕ) → Kernel F (Unit {0})
  broadcast_expand_scalar out in_ptr in_len out_len =
      if in_len == 0
      then done
      else for_each out_len (λ i. load (in_ptr + i % in_len) >>= λ v. store (out + i) v)

  unfoldable pub clf_simd_broadcast : (out in_ptr in_len out_len : ℕ) → Kernel F (Unit {0})
  unfolding broadcast_expand_scalar
  clf_simd_broadcast out in_ptr in_len out_len = broadcast_expand_scalar out in_ptr in_len out_len

  unfoldable pub clf_simd_expand : (out in_ptr in_len out_len : ℕ) → Kernel F (Unit {0})
  unfolding broadcast_expand_scalar
  clf_simd_expand out in_ptr in_len out_len = broadcast_expand_scalar out in_ptr in_len out_len

-- `as usize` of an `i32`: a negative number wraps around.
abbrev pub as_usize : I32 → ℕ
as_usize (pos n) = n
as_usize (negsuc n) = u64_mod - 1 - n

-- `clamp(0, hi)`
abbrev pub clamp_to : I32 → ℕ → ℕ
clamp_to (pos n) hi = min n hi
clamp_to (negsuc n) hi = 0

module _ (fp : Floats) where
  open fp use {F, zero_f, to_i32}

  unfoldable pub clf_simd_gather : (out contents indices out_len data_len : ℕ) → Kernel F (Unit {0})
  clf_simd_gather out contents indices out_len data_len = for_each out_len (λ i.
      load (indices + i) >>= λ index.
      let idx = as_usize (to_i32 index) in
      if ltb idx data_len then (load (contents + idx) >>= λ v. store (out + i) v) else done)

  -- `clamp(0, out_len as i32 - 1)`, which panics when the upper bound is negative. The cast keeps 32
  -- bits, and the difference of the smallest `i32` and 1 is the largest.
  unfoldable pub clamp_index : I32 → ℕ → Kernel F ℕ
  clamp_index index out_len =
      let bits = out_len % u32_mod in
      if ltb 0 bits && leb bits (2 ^ 31)
      then pure (clamp_to index (bits - 1))
      else raise clamp_bounds

  unfoldable pub clf_simd_scatter : (out contents indices in_len out_len : ℕ) → Kernel F (Unit {0})
  unfolding clamp_index
  clf_simd_scatter out contents indices in_len out_len =
      for_each out_len (λ j. store (out + j) zero_f)
      >> for_each in_len (λ i. load (indices + i) >>= λ index.
          clamp_index (to_i32 index) out_len >>= λ idx.
          load (contents + i) >>= λ v. store (out + idx) v)
