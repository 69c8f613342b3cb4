-- ===== src/Kernels/Memory.antt =====
-- kernels/simd/src/lib.rs: what the kernels do to memory through raw pointers, and their loops.
-- An address counts floats. An access outside the memory that the caller provides is a fault.
pub mod Fill
pub mod Blocks
pub mod Folds
use clf.Prelude.{ℕ, zero, suc, ◌+◌, Bool, List, [], ◌∷◌, ok, err, Action, pure, raise, ◌>>=◌, ◌>>◌}
use clf.Prelude.{leb, ◌==◌, if◌then◌else◌}

-- An access to an address that is not mapped, a panic, or a loop that has run out of fuel.
pub data Fault : Type 0 where
  unmapped : ℕ → Fault
  divide_by_zero clamp_bounds out_of_fuel : Fault

pub record Memory (F : Type 0) : Type 0 where
  pub mapped : ℕ → Bool
  pub cell : ℕ → F

-- The body of a kernel.
abbrev pub Kernel : Type 0 → Type 0 → Type 0
Kernel F A = Action (Memory F) Fault A

abbrev pub update : {F : Type 0} → (ℕ → F) → ℕ → F → ℕ → F
update f p v q = if p == q then v else f q

module _ {F : Type 0} where
  -- `*p.add(i)`
  unfoldable pub load : ℕ → Kernel F F
  load p m = if m.mapped p then (ok (m.cell p), m) else (err (unmapped p), m)

  -- `*p.add(i) = v`
  unfoldable pub store : ℕ → F → Kernel F (Unit {0})
  store p v m =
      if m.mapped p then (ok tt, record m { cell = update m.cell p v }) else (err (unmapped p), m)

  abbrev pub done : Kernel F (Unit {0})
  done = pure tt

  -- `for i in from..from + n { body(i) }`
  unfoldable pub for_range : (n from : ℕ) → (ℕ → Kernel F (Unit {0})) → Kernel F (Unit {0})
  for_range zero from body = done
  for_range (suc n) from body = body from >> for_range n (from + 1) body

  abbrev pub for_each : ℕ → (ℕ → Kernel F (Unit {0})) → Kernel F (Unit {0})
  for_each n body = for_range n 0 body

  -- A loop over `from..from + n` that updates a local variable.
  unfoldable pub fold_range : {A : Type 0} (n from : ℕ) → A → (A → ℕ → Kernel F A) → Kernel F A
  fold_range zero from acc body = pure acc
  fold_range (suc n) from acc body = body acc from >>= λ acc'. fold_range n (from + 1) acc' body

  -- `while i + step <= count { body(i); i += step; }`: the last `i`
  unfoldable pub while_blocks : (fuel step i count : ℕ) → (ℕ → Kernel F (Unit {0})) → Kernel F ℕ
  while_blocks zero step i count body = raise out_of_fuel
  while_blocks (suc fuel) step i count body =
      let rest = while_blocks fuel step (i + step) count body in
      if leb (i + step) count then body i >> rest else pure i

  -- the same loop with a local variable
  unfoldable pub fold_blocks :
      {A : Type 0} (fuel step i count : ℕ) → A → (A → ℕ → Kernel F A) → Kernel F (A × ℕ)
  fold_blocks {A} zero step i count acc body = raise out_of_fuel
  fold_blocks {A} (suc fuel) step i count acc body =
      let rest = λ (acc' : A). fold_blocks fuel step (i + step) count acc' body in
      if leb (i + step) count then body acc i >>= rest else pure (acc, i)

  -- `n` cells from `p` on, and as many stores as there are values
  unfoldable pub load_n : (n p : ℕ) → Kernel F (List F)
  load_n zero p = pure []
  load_n (suc n) p = do x ← load p; xs ← load_n n (p + 1); pure (x ∷ xs)

  unfoldable pub store_all : ℕ → List F → Kernel F (Unit {0})
  store_all p [] = done
  store_all p (x ∷ xs) = store p x >> store_all (p + 1) xs

  -- `copy_nonoverlapping` of `count` elements
  unfoldable pub copy_nonoverlapping : (from to count : ℕ) → Kernel F (Unit {0})
  unfolding load_n store_all
  copy_nonoverlapping from to count = load_n count from >>= store_all to
