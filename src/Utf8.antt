-- ===== src/Utf8.antt =====
-- `String`: its bytes, and the check of `String::from_utf8` of the standard library.
use Prim.Native.Char.{code}
use Prim.Native.String.{String}
use clf.Prelude.{
  ℕ, zero, suc, ◌≡◌, refl, Bool, true, false, ◌&&◌, List, [], ◌∷◌, Option, none, some,
}
use clf.Prelude.{leb, ltb, ◌==◌, if◌then◌else◌}

-- A Rust string is modelled as its UTF-8 bytes.
abbrev pub Text : Type 0
Text = List ℕ

-- The bytes of an ASCII literal.
abbrev pub text : String → Text
text String.[] = []
text (String.◌∷◌ c s) = code c ∷ text s

-- How many continuation bytes are still due, and the range of the next one.
record Due : Type 0 where
  count : ℕ
  low : ℕ
  high : ℕ

done : Due
done = record { count = 0; low = 128; high = 191 }

-- A first byte, by the table of the Unicode standard (no overlong forms, no surrogates).
lead : ℕ → Option Due
unfolding done
lead b =
    if ltb b 128
    then some done
    else if leb 194 b && leb b 223
    then some (record { count = 1; low = 128; high = 191 })
    else if b == 224
    then some (record { count = 2; low = 160; high = 191 })
    else if b == 237
    then some (record { count = 2; low = 128; high = 159 })
    else if leb 225 b && leb b 239
    then some (record { count = 2; low = 128; high = 191 })
    else if b == 240
    then some (record { count = 3; low = 144; high = 191 })
    else if leb 241 b && leb b 243
    then some (record { count = 3; low = 128; high = 191 })
    else if b == 244
    then some (record { count = 3; low = 128; high = 143 })
    else none

follow : ℕ → ℕ → ℕ → ℕ → Option Due
unfolding lead
follow zero low high b = lead b
follow (suc n) low high b =
    if leb low b && leb b high then some (record { count = n; low = 128; high = 191 }) else none

run : Option Due → List ℕ → Bool
unfolding follow
run none bytes = false
run (some d) [] = d.count == 0
run (some d) (b ∷ bytes) = run (follow d.count d.low d.high b) bytes

unfoldable pub is_utf8 : List ℕ → Bool
unfolding run done
is_utf8 bytes = run (some done) bytes

-- The bytes of "é", its overlong and its cut form.
is_utf8_cases :
    (is_utf8 (195 ∷ 169 ∷ []) ≡ true)
    × (is_utf8 (193 ∷ 169 ∷ []) ≡ false)
    × (is_utf8 (195 ∷ []) ≡ false)
unfolding is_utf8
is_utf8_cases = (refl, refl, refl)
