-- ===== src/Packer/Argument/Spelling.antt =====
-- Which arguments `parse_op_blob_arg` accepts, by how a number is spelled.
use clf.Prelude.{ℕ, ◌+◌, ◌-◌, ◌*◌, ◌<◌, ◌≤◌, ◌≡◌, refl, arith, Bool, true, false, inl, inr}
use clf.Prelude.{[], ◌∷◌, ◌++◌, Option, none, some, All, Bool-cases, leb→le, le→leb}
use clf.Prelude.{leb, ◌==◌, ◌&&◌, if◌then◌else◌, ok, err}
use clf.Utf8.{Text}
use clf.Packer.{u32_max}
use clf.Packer.Argument.{
  colon, split_colon, parse_digits, parse_u32, parse_op_blob_arg, invalid_op_id,
}

-- A decimal digit.
abbrev pub IsDigit : ℕ → Type 0
IsDigit c = (48 ≤ c) × (c ≤ 57)

-- The number that decimal digits spell, after those that gave `acc`.
abbrev pub decimal : ℕ → Text → ℕ
decimal acc [] = acc
decimal acc (c ∷ s) = decimal (acc * 10 + (c - 48)) s

-- The number, if it fits 32 bits.
abbrev pub in_u32 : ℕ → Option ℕ
in_u32 n = if leb n u32_max then some n else none

-- The tests where they fail.
leb→gt : (a b : ℕ) → leb a b ≡ false → b < a
leb→gt a b h = ground (arith, h)

gt→leb : (a b : ℕ) → b < a → leb a b ≡ false
gt→leb a b h = ground (arith, h)

differs : (a b : ℕ) → ¬ (a ≡ b) → (a == b) ≡ false
differs a b h = ground (arith, h)

both : {x y : Bool} → x ≡ true → y ≡ true → (x && y) ≡ true
both p q = rw (p, q) refl

acc-le_decimal : (acc : ℕ) (s : Text) → acc ≤ decimal acc s
acc-le_decimal acc [] = omega arith
acc-le_decimal acc (c ∷ s) = let h = acc-le_decimal (acc * 10 + (c - 48)) s in omega (arith, h)

parse_digits_lem :
    (acc : ℕ) (s : Text)
    → acc ≤ u32_max
    → All IsDigit s
    → parse_digits acc s ≡ in_u32 (decimal acc s)
unfolding parse_digits
parse_digits_lem acc [] le d = ground (arith, le)
parse_digits_lem acc (c ∷ s) le ((low, high), d) =
    let next = acc * 10 + (c - 48) in
    let digit = both (le→leb 48 c low) (le→leb c 57 high) in
    elim (Bool-cases (leb next u32_max)) [
      | inl fits ↦ rw (digit, fits) (parse_digits_lem next s (leb→le _ _ fits) d)
      | inr large ↦
          let more = acc-le_decimal next s in
          let over = leb→gt _ _ large in
          rw (digit, large, gt→leb (decimal next s) u32_max (omega (arith, more, over))) refl
    ]

-- Digits are no sign, and there is one.
parse_u32_digits :
    (c : ℕ) (s : Text) → All IsDigit (c ∷ s) → parse_u32 (c ∷ s) ≡ in_u32 (decimal 0 (c ∷ s))
unfolding parse_u32
parse_u32_digits c s d =
    let unsigned : (c == 43) ≡ false = differs c 43 (λ e. omega (arith, d.0.0, e)) in
    rw unsigned (parse_digits_lem 0 (c ∷ s) (omega arith) d)

split_colon-append :
    (id path : Text) → All IsDigit id → split_colon (id ++ (colon ∷ path)) ≡ (id, some path)
unfolding split_colon
split_colon-append [] path d = refl
split_colon-append (c ∷ s) path ((low, high), d) =
    let no_colon : (c == colon) ≡ false = differs c colon (λ e. omega (arith, high, e)) in
    rw (split_colon-append s path d, no_colon) refl

-- An argument of digits, a colon and a path that is not empty is accepted exactly when the number
-- fits 32 bits, and gives the number and the path; the path may hold further colons.
pub parse_op_blob_arg-decimal :
    (d : ℕ) (ds : Text) (p : ℕ) (ps : Text)
    → All IsDigit (d ∷ ds)
    → parse_op_blob_arg ((d ∷ ds) ++ (colon ∷ (p ∷ ps))) ≡ (
        if leb (decimal 0 (d ∷ ds)) u32_max
        then ok (decimal 0 (d ∷ ds), p ∷ ps)
        else err (invalid_op_id ((d ∷ ds) ++ (colon ∷ (p ∷ ps)))))
unfolding parse_op_blob_arg
parse_op_blob_arg-decimal d ds p ps digits =
    rw (split_colon-append (d ∷ ds) (p ∷ ps) digits, parse_u32_digits d ds digits) (ground arith)
