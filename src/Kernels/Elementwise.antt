-- ===== src/Kernels/Elementwise.antt =====
-- kernels/simd/src/lib.rs: the loops of the kernels that compute each output from the inputs at the same index.
pub mod Agrees
use clf.Prelude.{
  ℕ, ◌+◌, ◌-◌, Bool, true, false, map, List, Action, ◌>>=◌, ◌>>◌, ◌==◌, if◌then◌else◌,
}
use clf.Kernels.Floats.{Floats}
use clf.Kernels.Lanes.{lane_f32, loadu_ps, storeu_ps, zip_with, min_ps, max_ps}
use clf.Kernels.Memory.{Kernel, load, store, for_each, while_blocks, done}

module _ {F : Type 0} where
  -- `for i in 0..count { *out.add(i) = f(*x.add(i)) }`
  unfoldable pub map_scalar : (F → F) → (out x count : ℕ) → Kernel F (Unit {0})
  map_scalar f out x count = for_each count (λ i. load (x + i) >>= λ v. store (out + i) (f v))

  unfoldable pub zip_scalar : (F → F → F) → (out a b count : ℕ) → Kernel F (Unit {0})
  zip_scalar f out a b count =
      for_each count (λ i. load (a + i) >>= λ va. load (b + i) >>= λ vb. store (out + i) (f va vb))

  -- Eight lanes at a time while there are eight, and the scalar loop for the rest.
  unfoldable pub map_avx2 :
      (F → F) → ((out x count : ℕ) → Kernel F (Unit {0})) → (out x count : ℕ) → Kernel F (Unit {0})
  map_avx2 lane scalar out x count =
      while_blocks (count + 1) lane_f32 0 count
        (λ i. loadu_ps (x + i) >>= λ v. storeu_ps (out + i) (map lane v))
      >>= λ i. scalar (out + i) (x + i) (count - i)

  unfoldable pub zip_avx2 :
      (F → F → F)
      → ((out a b count : ℕ) → Kernel F (Unit {0}))
      → (out a b count : ℕ) → Kernel F (Unit {0})
  zip_avx2 lane scalar out a b count =
      while_blocks (count + 1) lane_f32 0 count (λ i. loadu_ps (a + i) >>= λ va.
      loadu_ps (b + i) >>= λ vb. storeu_ps (out + i) (zip_with lane va vb))
      >>= λ i. scalar (out + i) (a + i) (b + i) (count - i)

  -- The body of an entry point: nothing for no elements, else the code that the build selects.
  abbrev pub entry :
      (avx2 : Bool) (count : ℕ) (vector scalar : Kernel F (Unit {0})) → Kernel F (Unit {0})
  entry avx2 count vector scalar = if count == 0 then done else if avx2 then vector else scalar
