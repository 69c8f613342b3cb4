-- ===== src/Digest.antt =====
-- The interface of the crate `sha2` that the program uses: `Sha256::new`, `update`, `finalize`.
use clf.Prelude.{◌+◌, ◌-◌, ◌≤◌, sym, ap, ◌∙◌, take, drop, take-add, drop-drop, arith}
use clf.Prelude.{ℕ, ◌≡◌, List, [], ◌++◌, length, All}
use clf.Bytes.{IsByte}

-- Hashing nothing changes nothing, hashing in pieces is hashing the whole, and a hash has 32 bytes.
pub record Sha256 : Type 1 where
  pub Hasher : Type 0
  pub new : Hasher
  pub update : Hasher → List ℕ → Hasher
  pub finalize : Hasher → List ℕ
  pub update-nil : (h : Hasher) → update h [] ≡ h
  pub update-append : (h : Hasher) (xs ys : List ℕ) → update (update h xs) ys ≡ update h (xs ++ ys)
  pub finalize-IsByte : (h : Hasher) → All IsByte (finalize h)
  pub length-finalize : (h : Hasher) → length (finalize h) ≡ 32

-- `Sha256::digest`
abbrev pub digest : (sha : Sha256) → List ℕ → List ℕ
digest sha xs = sha.finalize (sha.update sha.new xs)

-- Two neighbouring pieces of a list, hashed one after the other, are hashed together.
pub update-take :
    (sha : Sha256) (h : sha.Hasher) (b n p : ℕ) (xs : List ℕ)
    → b ≤ n
    → sha.update (sha.update h (take b (drop p xs))) (take (n - b) (drop (p + b) xs))
      ≡ sha.update h (take n (drop p xs))
update-take sha h b n p xs le =
    sha.update-append h (take b (drop p xs)) _
    ∙ ap (sha.update h) (
        ap (λ ys. take b (drop p xs) ++ take (n - b) ys) (sym (drop-drop b p xs))
        ∙ sym (take-add b (n - b) (drop p xs))
        ∙ ap (λ k. take k (drop p xs)) (let whole : b + (n - b) ≡ n = omega arith in whole))

-- A loop that has nothing to hash.
pub update-take_zero :
    (sha : Sha256) (h : sha.Hasher) (n : ℕ) (xs : List ℕ) → n ≡ 0 → h ≡ sha.update h (take n xs)
update-take_zero sha h n xs e = rw e (sym (sha.update-nil h))
