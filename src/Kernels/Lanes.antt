-- ===== src/Kernels/Lanes.antt =====
-- The AVX2 intrinsics that the kernels use, lane by lane: a vector is the list of its eight floats.
use clf.Prelude.{ℕ, zero, suc, List, [], ◌∷◌, if◌then◌else◌}
use clf.Kernels.Memory.{Kernel, load_n, store_all}
use clf.Kernels.Floats.{Floats}

abbrev pub lane_f32 : ℕ
lane_f32 = 8

module _ {F : Type 0} where
  abbrev pub loadu_ps : ℕ → Kernel F (List F)
  loadu_ps p = load_n lane_f32 p

  abbrev pub storeu_ps : ℕ → List F → Kernel F (Unit {0})
  storeu_ps p v = store_all p v

  abbrev pub zip_with : (F → F → F) → List F → List F → List F
  zip_with f (a ∷ as') (b ∷ bs) = f a b ∷ zip_with f as' bs
  zip_with f _ _ = []

  -- `_mm256_set1_ps`, `_mm256_setzero_ps`
  abbrev pub set1_ps : F → List F
  set1_ps a = a ∷ a ∷ a ∷ a ∷ a ∷ a ∷ a ∷ a ∷ []

  abbrev lane_or : F → ℕ → List F → F
  lane_or d i [] = d
  lane_or d zero (x ∷ xs) = x
  lane_or d (suc i) (x ∷ xs) = lane_or d i xs

  -- `_mm256_cvtss_f32`: the first lane
  abbrev pub cvtss_f32 : F → List F → F
  cvtss_f32 d v = lane_or d 0 v

  abbrev pick : F → List ℕ → List F → List F
  pick d [] v = []
  pick d (i ∷ is) v = lane_or d i v ∷ pick d is v

  -- `_mm256_shuffle_ps(v, v, 0b10_11_00_01)`: neighbours change places
  abbrev pub swap_neighbours : F → List F → List F
  swap_neighbours d v = pick d (1 ∷ 0 ∷ 3 ∷ 2 ∷ 5 ∷ 4 ∷ 7 ∷ 6 ∷ []) v

  -- `_mm256_permute2f128_ps(v, v, 1)`: the halves change places
  abbrev pub swap_halves : F → List F → List F
  swap_halves d v = pick d (4 ∷ 5 ∷ 6 ∷ 7 ∷ 0 ∷ 1 ∷ 2 ∷ 3 ∷ []) v

  -- `_mm256_shuffle_ps(v, v, 0b01_00_11_10)`: the pairs of each half change places
  abbrev pub swap_pairs : F → List F → List F
  swap_pairs d v = pick d (2 ∷ 3 ∷ 0 ∷ 1 ∷ 6 ∷ 7 ∷ 4 ∷ 5 ∷ []) v

  -- The shape of `horizontal_sum_avx2`, `horizontal_max_avx2` and `horizontal_min_avx2`.
  unfoldable pub horizontal : F → (F → F → F) → List F → F
  horizontal d f v =
      let v1 = zip_with f v (swap_neighbours d v) in
      let v2 = zip_with f v1 (swap_halves d v1) in
      let v3 = zip_with f v2 (swap_pairs d v2) in cvtss_f32 d v3

module _ (fp : Floats) where
  open fp use {F, zero_f, lt}

  -- `_mm256_min_ps` and `_mm256_max_ps`: the second operand unless the first is smaller, or larger
  abbrev pub min_ps : F → F → F
  min_ps a b = if lt a b then a else b

  abbrev pub max_ps : F → F → F
  max_ps a b = if lt b a then a else b
