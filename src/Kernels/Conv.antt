-- ===== src/Kernels/Conv.antt =====
-- kernels/simd/src/lib.rs: convolution of images in NCHW order, and the shapes of its 6-argument entry.
pub mod Shapes
use clf.Prelude.{
  ℕ, zero, suc, ◌+◌, ◌-◌, ◌*◌, ◌/◌, ◌%◌, Bool, not, ◌&&◌, ◌||◌, Option, none, some, Action, pure,
  raise, ◌>>=◌, ◌>>◌, ltb, ◌==◌, if◌then◌else◌,
}
use clf.Bytes.{u64_mod}
use clf.Kernels.Floats.{Floats}
use clf.Kernels.Memory.{Kernel, load, store, for_each, fold_range, done, divide_by_zero}

-- The two sides of an image, a kernel, a stride or a padding.
pub record Sides : Type 0 where
  pub height : ℕ
  pub width : ℕ

-- `usize` arithmetic of a release build
abbrev pub add_usize : ℕ → ℕ → ℕ
add_usize a b = (a + b) % u64_mod

abbrev pub sub_usize : ℕ → ℕ → ℕ
sub_usize a b = (a % u64_mod + u64_mod - b % u64_mod) % u64_mod

abbrev pub mul_usize : ℕ → ℕ → ℕ
mul_usize a b = a * b % u64_mod

-- `(size + 2 * pad - k) / stride + 1`, which panics for no stride
unfoldable pub out_size : {F : Type 0} (size pad k stride : ℕ) → Kernel F ℕ
out_size size pad k stride =
    if stride == 0
    then raise divide_by_zero
    else pure (add_usize (sub_usize (add_usize size (mul_usize 2 pad)) k / stride) 1)

-- `(o * stride).wrapping_add(k).wrapping_sub(pad)`
abbrev pub source_index : (o stride k pad : ℕ) → ℕ
source_index o stride k pad = sub_usize (add_usize (mul_usize o stride) k) pad

module _ (fp : Floats) where
  open fp use {F, zero_f}

  -- One product, where the source pixel lies in the image.
  abbrev pub conv_term :
      (inp weights ni co ho wo c_in : ℕ) (image k stride pad : Sides) (ci kh kw : ℕ)
      → F
      → Kernel F F
  conv_term inp weights ni co ho wo c_in image k stride pad ci kh kw sum =
      let hi = source_index ho stride.height kh pad.height in
      let wi = source_index wo stride.width kw pad.width in
      let in_hw = image.height * image.width in
      let w_k = k.height * k.width in
      if ltb hi image.height && ltb wi image.width
      then (load (inp + (ni * (c_in * in_hw) + ci * in_hw + hi * image.width + wi)) >>= λ v.
          load (weights + (co * (c_in * w_k) + ci * w_k + kh * k.width + kw)) >>= λ weight.
          pure (fp.add sum (fp.mul v weight)))
      else pure sum

  -- A null `bias` is `none`.
  abbrev pub conv_start : Option ℕ → ℕ → Kernel F F
  conv_start none co = pure zero_f
  conv_start (some bias) co = load (bias + co)

  unfoldable pub conv_scalar :
      (out inp weights : ℕ) (bias : Option ℕ) (n c_in : ℕ) (image : Sides) (c_out : ℕ)
      (k stride pad : Sides)
      → Kernel F (Unit {0})
  unfolding out_size
  conv_scalar out inp weights bias n c_in image c_out k stride pad =
      out_size image.height pad.height k.height stride.height >>= λ h_out.
      out_size image.width pad.width k.width stride.width >>= λ w_out. for_each n (λ ni.
        for_each c_out (λ co. for_each h_out (λ ho. for_each w_out (λ wo.
          conv_start bias co >>= λ start.
          fold_range c_in 0 start (λ sum0 ci. fold_range k.height 0 sum0 (λ sum1 kh.
            fold_range k.width 0 sum1
              (λ sum2 kw. conv_term inp weights ni co ho wo c_in image k stride pad ci kh kw sum2)))
          >>= λ sum.
              store (out + (ni * c_out * h_out * w_out + co * h_out * w_out + ho * w_out + wo))
                sum))))

  unfoldable pub conv_avx2 :
      (out inp weights : ℕ) (bias : Option ℕ) (n c_in : ℕ) (image : Sides) (c_out : ℕ)
      (k stride pad : Sides)
      → Kernel F (Unit {0})
  unfolding conv_scalar
  conv_avx2 out inp weights bias n c_in image c_out k stride pad =
      conv_scalar out inp weights bias n c_in image c_out k stride pad

  unfoldable pub clf_simd_conv :
      (avx2 : Bool) (out inp weights : ℕ) (bias : Option ℕ) (n c_in : ℕ) (image : Sides) (c_out : ℕ)
      (k stride pad : Sides)
      → Kernel F (Unit {0})
  unfolding conv_scalar conv_avx2
  clf_simd_conv avx2 out inp weights bias n c_in image c_out k stride pad =
      if n == 0 || (c_out == 0 || c_in == 0)
      then done
      else if avx2
      then conv_avx2 out inp weights bias n c_in image c_out k stride pad
      else conv_scalar out inp weights bias n c_in image c_out k stride pad

pub record ConvShapes : Type 0 where
  pub c_in : ℕ
  pub c_out : ℕ
  pub image : Sides
  pub kernel : Sides

-- `(x as f64).sqrt() as usize` is the parameter `isqrt`.
module _ (isqrt : ℕ → ℕ) where
  -- The sides that are derived from a number of pixels, as near to a square as `isqrt` says.
  abbrev pub sides_of : ℕ → Sides
  sides_of size =
      let h = isqrt size in record { height = h; width = if ltb 0 h then size / h else 0 }

  -- The shapes for one number of input channels, which is not zero, if they fit together. A divisor
  -- is tested after it is known not to be zero.
  unfoldable pub conv_candidate : (in_len out_len w_len c_in : ℕ) → Option ConvShapes
  conv_candidate in_len out_len w_len c_in =
      let spatial = in_len / c_in in
      let c_out = out_len / spatial in
      let weight_elements = mul_usize c_in c_out in
      let k_prod = w_len / weight_elements in
      let k = sides_of k_prod in
      let image = sides_of spatial in
      if not (in_len % c_in == 0)
      then none
      else if not (out_len % spatial == 0)
      then none
      else if weight_elements == 0 || not (w_len % weight_elements == 0)
      then none
      else if k.height == 0 || (k.width == 0 || not (mul_usize k.height k.width == k_prod))
      then none
      else if not (mul_usize image.height image.width == spatial)
      then none
      else some (record { c_in = c_in; c_out = c_out; image = image; kernel = k })

  -- The loop over the candidates, `rounds` of them from `c_in` on.
  unfoldable pub first_candidate : (rounds in_len out_len w_len c_in : ℕ) → Option ConvShapes
  first_candidate zero in_len out_len w_len c_in = none
  first_candidate (suc rounds) in_len out_len w_len c_in =
      let rest = first_candidate rounds in_len out_len w_len (c_in + 1) in
      elim (conv_candidate in_len out_len w_len c_in) [ some shapes ↦ some shapes | none ↦ rest ]

  unfoldable pub derive_conv_shapes : (in_len out_len w_len : ℕ) → Option ConvShapes
  derive_conv_shapes in_len out_len w_len = first_candidate in_len in_len out_len w_len 1
