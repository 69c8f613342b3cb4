-- ===== src/Format/Kinds.antt =====
-- The three spellings of a kind: its byte, its name and its file extension.
use clf.Prelude.{true, ℕ, ◌≡◌, refl, ◌↔◌, Option, none, some, [], ◌∷◌, arith, ok}
use clf.Utf8.{Text}
use clf.Format.{ClfKind, compute, memory_movement, memory_protection, executor}
use clf.Format.{
  kind_byte, kind_eq, try_from_byte, extension, display, from_str, to_lowercase, or_unknown,
}

-- `try_from_byte` accepts a byte exactly when it is the discriminant of the kind it returns.
pub try_from_byte_iff : (b : ℕ) (k : ClfKind) → (try_from_byte b ≡ some k) ↔ (kind_byte k ≡ b)
unfolding try_from_byte kind_byte
try_from_byte_iff b compute = ground arith
try_from_byte_iff b memory_movement = ground arith
try_from_byte_iff b memory_protection = ground arith
try_from_byte_iff b executor = ground arith

pub kind_eq_iff : (j k : ClfKind) → (kind_eq j k ≡ true) ↔ (j ≡ k)
unfolding kind_eq
kind_eq_iff j k = ground arith

-- The displayed name of a kind and its file extension both parse back to the kind.
pub from_str_spellings :
    (k : ClfKind) → (from_str (display k) ≡ ok k) × (from_str (extension k) ≡ ok k)
unfolding from_str display extension
from_str_spellings compute = (refl, refl)
from_str_spellings memory_movement = (refl, refl)
from_str_spellings memory_protection = (refl, refl)
from_str_spellings executor = (refl, refl)

lowercase-lowercase : (s : Text) → to_lowercase (to_lowercase s) ≡ to_lowercase s
unfolding to_lowercase
lowercase-lowercase [] = refl
lowercase-lowercase (c ∷ s) = ground (arith, lowercase-lowercase s)

-- The error quotes the text, a success does not.
or_unknown_ok :
    (s t : Text) (o : Option ClfKind) (k : ClfKind) → or_unknown s o ≡ ok k → or_unknown t o ≡ ok k
unfolding or_unknown
or_unknown_ok s t none k h = cc
or_unknown_ok s t (some j) k h = h

-- Parsing a kind does not depend on the case of ASCII letters.
pub from_str-to_lowercase :
    (s : Text) (k : ClfKind) → (from_str (to_lowercase s) ≡ ok k) ↔ (from_str s ≡ ok k)
unfolding from_str
from_str-to_lowercase s k =
    rw (lowercase-lowercase s) (or_unknown_ok _ _ _ k, or_unknown_ok _ _ _ k)
