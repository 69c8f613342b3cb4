-- ===== src/Prelude/Outcome.antt =====
-- Rust's `Result<A, E>`, and methods that take `&mut self` and may fail: what was changed before an
-- error stays changed, so the state comes back beside the error too.

pub data Result {ℓ κ} (E : Type ℓ) (A : Type κ) : Type (ℓ ⊔ κ) where
  ok : A → Result E A
  err : E → Result E A

module _ {ℓ κ} {E : Type ℓ} {A : Type κ} where
  -- the `?` operator on a `Result`
  abbrev pub and_then {μ} : {B : Type μ} → Result E A → (A → Result E B) → Result E B
  and_then (ok a) f = f a
  and_then (err e) f = err e

  abbrev pub map_err {μ} : {D : Type μ} → (E → D) → Result E A → Result D A
  map_err f (ok a) = ok a
  map_err f (err e) = err (f e)

-- A step on a state `S` that may fail with `E`.
abbrev pub Action : Type 0 → Type 0 → Type 0 → Type 0
Action S E A = S → Result E A × S

module _ {S E A : Type 0} where
  abbrev pub pure : A → Action S E A
  pure a s = (ok a, s)

  abbrev pub raise : E → Action S E A
  raise e s = (err e, s)

  abbrev pub lift : Result E A → Action S E A
  lift r s = (r, s)

module _ {S E D A : Type 0} where
  -- `?` where the error is converted by a `From` instance
  abbrev pub convert : (E → D) → Action S E A → Action S D A
  convert f m s = let (r, s') = m s in (map_err f r, s')

module _ {S E A B : Type 0} where
  abbrev pub continue : Result E A → (A → Action S E B) → Action S E B
  continue (ok a) f s = f a s
  continue (err e) f s = (err e, s)

  infixl 10 ◌>>=◌ ◌>>◌
  abbrev pub ◌>>=◌ : Action S E A → (A → Action S E B) → Action S E B
  ◌>>=◌ m f s = let (r, s') = m s in continue r f s'

  abbrev pub ◌>>◌ : Action S E A → Action S E B → Action S E B
  m >> n = m >>= λ _. n
