-- ===== src/Reader/Sorting/Ascending.antt =====
-- Sorting by a key: a permutation, and strictly ascending where the keys are all different.
use mathlib.Core.List.Permᴰ
use mathlib.Core.List.{Permᴰ}
use clf.Prelude.{
  ℕ, ◌<◌, ◌≡◌, refl, ap, ◌∙◌, false, ◌||◌, List, [], ◌∷◌, map, All, arith, leb, ◌==◌, inl, inr,
  Bool-cases, leb→le,
}
use clf.Packer.{contains}
use clf.Reader.Sorting.{place, sort_by_key}

-- Each number is less than all that follow.
unfoldable pub IsAscending : List ℕ → Type 0
IsAscending [] = Unit {0}
IsAscending (x ∷ xs) = All (λ y. x < y) xs × IsAscending xs

-- No number comes twice.
unfoldable pub Distinct : List ℕ → Type 0
Distinct [] = Unit {0}
Distinct (x ∷ xs) = (contains x xs ≡ false) × Distinct xs

module _ {A : Type 0} (key : A → ℕ) where
  map-place : (x : A) (ys : List A) → map key (place key x ys) ≡ place (λ k. k) (key x) (map key ys)
  unfolding place
  map-place x [] = refl
  map-place x (y ∷ ys) = elim (Bool-cases (leb (key x) (key y))) [
    | inl le ↦ rw le refl
    | inr gt ↦ rw gt (ap (λ t. key y ∷ t) (map-place x ys))
  ]

  pub map-sort_by_key :
      (xs : List A) → map key (sort_by_key key xs) ≡ sort_by_key (λ k. k) (map key xs)
  unfolding sort_by_key
  map-sort_by_key [] = refl
  map-sort_by_key (x ∷ xs) =
      map-place x (sort_by_key key xs) ∙ ap (place (λ k. k) (key x)) (map-sort_by_key xs)

  place-Perm : (x : A) (ys : List A) → Permᴰ (place key x ys) (x ∷ ys)
  unfolding place
  place-Perm x [] = Permᴰ.refl (x ∷ [])
  place-Perm x (y ∷ ys) = elim (Bool-cases (leb (key x) (key y))) [
    | inl le ↦ rw le (Permᴰ.refl (x ∷ y ∷ ys))
    | inr gt ↦ rw gt (Permᴰ.trans (Permᴰ.cons refl (place-Perm x ys)) (Permᴰ.swap refl refl))
  ]

  pub sort_by_key-Perm : (xs : List A) → Permᴰ (sort_by_key key xs) xs
  unfolding sort_by_key
  sort_by_key-Perm [] = Permᴰ.nil
  sort_by_key-Perm (x ∷ xs) =
      Permᴰ.trans (place-Perm x (sort_by_key key xs)) (Permᴰ.cons refl (sort_by_key-Perm xs))

place-contains :
    (j k : ℕ) (ys : List ℕ) → contains j (place (λ t. t) k ys) ≡ (j == k || contains j ys)
unfolding place contains
place-contains j k [] = refl
place-contains j k (y ∷ ys) = ground (arith, place-contains j k ys)

pub sort-contains : (j : ℕ) (xs : List ℕ) → contains j (sort_by_key (λ t. t) xs) ≡ contains j xs
unfolding sort_by_key contains
sort-contains j [] = refl
sort-contains j (x ∷ xs) =
    place-contains j x (sort_by_key (λ t. t) xs) ∙ ap (λ t. j == x || t) (sort-contains j xs)

All-lt : (x y : ℕ) (ys : List ℕ) → x < y → All (λ z. y < z) ys → All (λ z. x < z) ys
All-lt x y [] h a = tt
All-lt x y (z ∷ zs) h a = let first = a.0 in (omega (arith, first), All-lt x y zs h a.1)

All-place :
    (x k : ℕ) (ys : List ℕ) → x < k → All (λ z. x < z) ys → All (λ z. x < z) (place (λ t. t) k ys)
unfolding place
All-place x k [] h a = (h, tt)
All-place x k (y ∷ ys) h a = elim (Bool-cases (leb k y)) [
  | inl le ↦ rw le (h, a)
  | inr gt ↦ rw gt (a.0, All-place x k ys h a.1)
]

place-IsAscending :
    (k : ℕ) (ys : List ℕ)
    → contains k ys ≡ false
    → IsAscending ys
    → IsAscending (place (λ t. t) k ys)
unfolding place contains IsAscending
place-IsAscending k [] h a = (tt, tt)
place-IsAscending k (y ∷ ys) h a = elim (Bool-cases (leb k y)) [
  | inl le ↦
      let less : k < y = ground (arith, leb→le k y le) in rw le ((less, All-lt k y ys less a.0), a)
  | inr gt ↦
      let less : y < k = ground arith in
      rw gt (All-place y k ys less a.0, place-IsAscending k ys (ground arith) a.1)
]

pub sort-IsAscending : (xs : List ℕ) → Distinct xs → IsAscending (sort_by_key (λ t. t) xs)
unfolding sort_by_key Distinct IsAscending
sort-IsAscending [] d = tt
sort-IsAscending (x ∷ xs) d =
    place-IsAscending x (sort_by_key (λ t. t) xs) (sort-contains x xs ∙ d.0)
      (sort-IsAscending xs d.1)
