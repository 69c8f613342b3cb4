-- ===== src/Kernels/Halts.antt =====
-- Kernels that never run out of fuel, with one rule for each way to build one.
pub mod Vectors
use clf.Prelude.{
  ℕ, zero, suc, ◌+◌, ◌<◌, ◌≡◌, refl, Bool, true, false, List, [], ◌∷◌, Result, ok, err, continue,
  pure, raise, ◌>>=◌, ◌>>◌, arith, leb, if◌then◌else◌, inl, inr, Bool-cases, leb→le,
}
use clf.Kernels.Memory.{
  Fault, unmapped, divide_by_zero, clamp_bounds, out_of_fuel, Memory, Kernel, load, store,
  for_range, fold_range, while_blocks, fold_blocks, load_n, store_all,
}

-- The result is not that the fuel has run out.
abbrev pub has_fuel : {A : Type 0} → Result Fault A → Bool
has_fuel (ok a) = true
has_fuel (err (unmapped p)) = true
has_fuel (err divide_by_zero) = true
has_fuel (err clamp_bounds) = true
has_fuel (err out_of_fuel) = false

module _ {F : Type 0} where
  -- Over no memory does the kernel run out of fuel.
  abbrev pub Halts : {A : Type 0} → Kernel F A → Type 0
  Halts k = (m : Memory F) → has_fuel (k m).0 ≡ true

  continue-Halts :
      {A B : Type 0} (r : Result Fault A) (f : A → Kernel F B) (m : Memory F)
      → has_fuel r ≡ true
      → ((a : A) → Halts (f a))
      → has_fuel (continue r f m).0 ≡ true
  continue-Halts (ok a) f m h g = g a m
  continue-Halts (err (unmapped p)) f m h g = refl
  continue-Halts (err divide_by_zero) f m h g = refl
  continue-Halts (err clamp_bounds) f m h g = refl
  continue-Halts (err out_of_fuel) f m h g = cc

  pub bind-Halts :
      {A B : Type 0} (k : Kernel F A) (f : A → Kernel F B)
      → Halts k
      → ((a : A) → Halts (f a))
      → Halts (k >>= f)
  bind-Halts k f h g m = continue-Halts (k m).0 f (k m).1 (h m) g

  pub if-Halts :
      {A : Type 0} (b : Bool) (k l : Kernel F A) → Halts k → Halts l → Halts (if b then k else l)
  if-Halts true k l h g = h
  if-Halts false k l h g = g

  pub pure-Halts : {A : Type 0} (a : A) → Halts (pure a)
  pure-Halts a m = refl

  pub load-Halts : (p : ℕ) → Halts (load p)
  unfolding load
  load-Halts p m = ground arith

  pub store-Halts : (p : ℕ) (v : F) → Halts (store p v)
  unfolding store
  store-Halts p v m = ground arith

  pub load_n-Halts : (n p : ℕ) → Halts (load_n n p)
  unfolding load_n
  load_n-Halts zero p = λ m. refl
  load_n-Halts (suc n) p =
      bind-Halts (load p) _ (load-Halts p)
        (λ x. bind-Halts (load_n n (p + 1)) _ (load_n-Halts n (p + 1)) (λ xs m. refl))

  pub store_all-Halts : (p : ℕ) (v : List F) → Halts (store_all p v)
  unfolding store_all
  store_all-Halts p [] = λ m. refl
  store_all-Halts p (x ∷ xs) =
      bind-Halts (store p x) _ (store-Halts p x) (λ t. store_all-Halts (p + 1) xs)

  pub for_range-Halts :
      (n from : ℕ) (body : ℕ → Kernel F (Unit {0}))
      → ((i : ℕ) → Halts (body i))
      → Halts (for_range n from body)
  unfolding for_range
  for_range-Halts zero from body h = λ m. refl
  for_range-Halts (suc n) from body h =
      bind-Halts (body from) _ (h from) (λ t. for_range-Halts n (from + 1) body h)

  pub fold_range-Halts :
      {A : Type 0} (n from : ℕ) (acc : A) (body : A → ℕ → Kernel F A)
      → ((a : A) (i : ℕ) → Halts (body a i))
      → Halts (fold_range n from acc body)
  unfolding fold_range
  fold_range-Halts zero from acc body h = λ m. refl
  fold_range-Halts (suc n) from acc body h =
      bind-Halts (body acc from) _ (h acc from) (λ a. fold_range-Halts n (from + 1) a body h)

  -- Fuel beyond what is left to count is enough for blocks of one or more.
  pub while_blocks-Halts :
      (fuel step i count : ℕ) (body : ℕ → Kernel F (Unit {0}))
      → 0 < step
      → 0 < fuel
      → count < fuel + i
      → ((j : ℕ) → Halts (body j))
      → Halts (while_blocks fuel step i count body)
  unfolding while_blocks
  while_blocks-Halts zero step i count body pos some_fuel enough h = absurd (omega arith)
  while_blocks-Halts (suc fuel) step i count body pos some_fuel enough h =
      elim (Bool-cases (leb (i + step) count)) [
        | inl more ↦
            let room = leb→le (i + step) count more in
            rw more (
              bind-Halts (body i) (λ t. while_blocks fuel step (i + step) count body) (h i)
                (λ t.
                  while_blocks-Halts fuel step (i + step) count body pos (omega (arith, room))
                    (omega arith) h))
        | inr last ↦ rw last (λ m. refl)
      ]

  pub fold_blocks-Halts :
      {A : Type 0} (fuel step i count : ℕ) (acc : A) (body : A → ℕ → Kernel F A)
      → 0 < step
      → 0 < fuel
      → count < fuel + i
      → ((a : A) (j : ℕ) → Halts (body a j))
      → Halts (fold_blocks fuel step i count acc body)
  unfolding fold_blocks
  fold_blocks-Halts zero step i count acc body pos some_fuel enough h = absurd (omega arith)
  fold_blocks-Halts {A} (suc fuel) step i count acc body pos some_fuel enough h =
      elim (Bool-cases (leb (i + step) count)) [
        | inl more ↦
            let room = leb→le (i + step) count more in
            rw more (
              bind-Halts (body acc i) (λ (a : A). fold_blocks fuel step (i + step) count a body)
                (h acc i)
                (λ a.
                  fold_blocks-Halts fuel step (i + step) count a body pos (omega (arith, room))
                    (omega arith) h))
        | inr last ↦ rw last (λ m. refl)
      ]
