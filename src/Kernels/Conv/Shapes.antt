-- ===== src/Kernels/Conv/Shapes.antt =====
-- The shapes that `derive_conv_shapes` finds.
use native.Mathlib.Nat.{
  mod-add-div, mod-eq_of_lt, mul-div-le, lt_of_le_of_lt, div-le_self, mul-le-mul, mul_comm, le_refl,
}
use mathlib.Core.Path.{subst}
use mathlib.Core.Option.{some_inj}
use clf.Prelude.{
  ℕ, zero, suc, ◌+◌, ◌*◌, ◌/◌, ◌%◌, ◌≤◌, ◌<◌, ◌≡◌, refl, sym, ap, ◌∙◌, Bool, true, false, Option,
  none, some, arith, ◌==◌, not, inl, inr, Bool-cases, Option-cases, ap₂, ◌||◌, ==_iff, ltb,
  if◌then◌else◌,
}
use clf.Bytes.{u64_mod}
use clf.Kernels.Conv.{
  ConvShapes, mul_usize, sides_of, conv_candidate, first_candidate, derive_conv_shapes,
}

-- What makes shapes those of buffers of these lengths: every length is the product of its dimensions.
pub record Fit (in_len out_len w_len : ℕ) (s : ConvShapes) : Type 0 where
  pub input : s.c_in * (s.image.height * s.image.width) ≡ in_len
  pub output : s.c_out * (s.image.height * s.image.width) ≡ out_len
  pub weights : s.c_in * s.c_out * (s.kernel.height * s.kernel.width) ≡ w_len

divides : (n d : ℕ) → n % d ≡ 0 → d * (n / d) ≡ n
divides n d h = omega (arith, mod-add-div n d, h)

-- A guard that did not return.
passed :
    {A : Type 0} (b : Bool) (rest : Option A) (a : A)
    → (if b then none else rest) ≡ some a
    → (b ≡ false) × (rest ≡ some a)
passed true rest a h = cc
passed false rest a h = (refl, h)

not_not : (b : Bool) → not b ≡ false → b ≡ true
not_not true h = refl
not_not false h = cc

or_false : (a b : Bool) → (a || b) ≡ false → (a ≡ false) × (b ≡ false)
or_false true b h = cc
or_false false b h = (refl, h)

product-le : (h size : ℕ) → h * (if ltb 0 h then size / h else 0) ≤ size
product-le h size = elim (Bool-cases (ltb 0 h)) [
  | inl pos ↦ rw pos (mul-div-le size h)
  | inr none_high ↦ rw none_high (omega arith)
]

-- A product of sides that were derived from their product does not wrap around.
sides_of-mul :
    (isqrt : ℕ → ℕ) (size : ℕ)
    → size < u64_mod
    → mul_usize (sides_of isqrt size).height (sides_of isqrt size).width
      ≡ (sides_of isqrt size).height * (sides_of isqrt size).width
sides_of-mul isqrt size small = mod-eq_of_lt (lt_of_le_of_lt (product-le (isqrt size) size) small)

mul_le_right : (a b c : ℕ) → b ≤ c → a * b ≤ a * c
mul_le_right a b c h = mul-le-mul (le_refl a) h

module _ (isqrt : ℕ → ℕ) (in_len out_len w_len c_in : ℕ) (s : ConvShapes) where
  -- What `conv_candidate` has tested when it returns shapes.
  conv_candidate_tests :
      conv_candidate isqrt in_len out_len w_len c_in ≡ some s
      → let spatial = in_len / c_in in
        let c_out = out_len / spatial in
        let weight_elements = mul_usize c_in c_out in
        let k_prod = w_len / weight_elements in
        let k = sides_of isqrt k_prod in
        let image = sides_of isqrt spatial in
        (in_len % c_in ≡ 0)
        × (out_len % spatial ≡ 0)
        × (w_len % weight_elements ≡ 0)
        × (mul_usize k.height k.width ≡ k_prod)
        × (mul_usize image.height image.width ≡ spatial)
        × (record { c_in = c_in; c_out = c_out; image = image; kernel = k } ≡ s)
  unfolding conv_candidate
  conv_candidate_tests h =
      let (a, h1) = passed _ _ s h in
      let (b, h2) = passed _ _ s h1 in
      let (c, h3) = passed _ _ s h2 in
      let (d, h4) = passed _ _ s h3 in
      let (e, h5) = passed _ _ s h4 in
      (
        (==_iff _ _).0 (not_not _ a),
        (==_iff _ _).0 (not_not _ b),
        (==_iff _ _).0 (not_not _ (or_false _ _ c).1),
        (==_iff _ _).0 (not_not _ (or_false _ _ (or_false _ _ d).1).1),
        (==_iff _ _).0 (not_not _ e),
        some_inj.0 h5,
      )

  conv_candidate-Fit :
      in_len < u64_mod
      → w_len < u64_mod
      → c_in * out_len < u64_mod
      → conv_candidate isqrt in_len out_len w_len c_in ≡ some s
      → Fit in_len out_len w_len s
  conv_candidate-Fit small_in small_w small h =
      let tests = conv_candidate_tests h in
      let spatial = in_len / c_in in
      let c_out = out_len / spatial in
      let area : (sides_of isqrt spatial).height * (sides_of isqrt spatial).width ≡ spatial =
        sym (sides_of-mul isqrt spatial (lt_of_le_of_lt (div-le_self in_len c_in) small_in))
        ∙ tests.4 in
      let channels : mul_usize c_in c_out ≡ c_in * c_out =
        mod-eq_of_lt
          (lt_of_le_of_lt (mul_le_right c_in c_out out_len (div-le_self out_len spatial)) small) in
      let k_prod = w_len / mul_usize c_in c_out in
      let taps : (sides_of isqrt k_prod).height * (sides_of isqrt k_prod).width ≡ k_prod =
        sym (sides_of-mul isqrt k_prod (lt_of_le_of_lt (div-le_self w_len _) small_w)) ∙ tests.3 in
      subst (Fit in_len out_len w_len) tests.5 (record {
        input = ap (λ t. c_in * t) area ∙ divides in_len c_in tests.0;
        output =
            ap (λ t. c_out * t) area ∙ mul_comm c_out spatial ∙ divides out_len spatial tests.1;
        weights =
            ap₂ (λ t u. t * u) (sym channels) taps ∙ divides w_len (mul_usize c_in c_out) tests.2;
      })

-- The loop returns the shapes of its first candidate that passes.
first_candidate_lem :
    (isqrt : ℕ → ℕ) (rounds in_len out_len w_len from : ℕ) (s : ConvShapes)
    → first_candidate isqrt rounds in_len out_len w_len from ≡ some s
    → (c : ℕ) × (from ≤ c)
      × (c < from + rounds)
      × (conv_candidate isqrt in_len out_len w_len c ≡ some s)
      × ((d : ℕ) → from ≤ d → d < c → conv_candidate isqrt in_len out_len w_len d ≡ none)
unfolding first_candidate
first_candidate_lem isqrt zero in_len out_len w_len from s h = cc
first_candidate_lem isqrt (suc rounds) in_len out_len w_len from s h =
    elim (Option-cases (conv_candidate isqrt in_len out_len w_len from)) [
      | inr (t, found) ↦ (
        from,
        omega arith,
        omega arith,
        found ∙ (rw (found, first_candidate) at h),
        λ d low high. absurd (omega arith),
      )
      | inl failed ↦
          let (c, low, high, found, before) =
            first_candidate_lem isqrt rounds in_len out_len w_len (from + 1) s
              (rw (failed, first_candidate) at h) in
          (
            c,
            omega arith,
            omega arith,
            found,
            λ d low' high'. elim (Bool-cases (d == from)) [
              | inl same ↦ rw ((==_iff d from).0 same) failed
              | inr other ↦ before d (ground (arith, other)) high'
            ],
          )
    ]

-- The shapes that `derive_conv_shapes` returns are those of the buffers: each length is the product of
-- its dimensions. They have the least number of input channels for which the tests pass. It is
-- required that the lengths are `usize`s and that the product of the input's and the output's does
-- not wrap around.
pub derive_conv_shapes-Fit :
    (isqrt : ℕ → ℕ) (in_len out_len w_len : ℕ) (s : ConvShapes)
    → in_len < u64_mod
    → w_len < u64_mod
    → in_len * out_len < u64_mod
    → derive_conv_shapes isqrt in_len out_len w_len ≡ some s
    → Fit in_len out_len w_len s
      × ((d : ℕ) → 0 < d → d < s.c_in → conv_candidate isqrt in_len out_len w_len d ≡ none)
unfolding derive_conv_shapes
derive_conv_shapes-Fit isqrt in_len out_len w_len s small_in small_w small h =
    let (c, low, high, found, before) =
      first_candidate_lem isqrt in_len in_len out_len w_len 1 s h in
    let tests = conv_candidate_tests isqrt in_len out_len w_len c s found in
    let same : c ≡ s.c_in = ap (λ t. t.c_in) tests.5 in
    let room : c * out_len < u64_mod =
      lt_of_le_of_lt
        (mul-le-mul (let le : c ≤ in_len = omega (arith, high) in le) (le_refl out_len)) small in
    (
      conv_candidate-Fit isqrt in_len out_len w_len c s small_in small_w room found,
      λ d pos less. before d (omega (arith, pos)) (omega (arith, less, same)),
    )
