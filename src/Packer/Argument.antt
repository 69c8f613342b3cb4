-- ===== src/Packer/Argument.antt =====
-- src/packer.rs: `parse_op_blob_arg`, with the `splitn` and `u32::from_str` that it calls.
pub mod Spelling
use clf.Prelude.{ℕ, ◌+◌, ◌-◌, ◌*◌, ◌<◌, ◌≤◌, ◌≡◌, refl, sym, ap, ◌∙◌, arith, Bool, true, false, not}
use clf.Prelude.{
  List, [], ◌∷◌, ◌++◌, Option, none, some, All, Bool-cases, ltb→lt, lt→ltb, ltb→le, le→ltb, leb→le,
  le→leb,
}
use clf.Prelude.{leb, ltb, ◌==◌, ◌&&◌, if◌then◌else◌, Result, ok, err}
use clf.Utf8.{Text}
use clf.Packer.{u32_max, is_empty}

-- The messages, with the argument that they quote.
pub data ArgumentError : Type 0 where
  expected_id_path empty_path invalid_op_id : Text → ArgumentError

abbrev pub colon : ℕ
colon = 58

-- What stands before the first `:`, and what stands after it, if there is one.
unfoldable pub split_colon : Text → Text × Option Text
split_colon [] = ([], none)
split_colon (c ∷ s) =
    let (before, after) = split_colon s in if c == colon then ([], some s) else (c ∷ before, after)

abbrev pub is_digit : ℕ → Bool
is_digit c = leb 48 c && leb c 57

-- The digits of a `u32`, after those that gave `acc`; it stops at an overflow.
unfoldable pub parse_digits : ℕ → Text → Option ℕ
parse_digits acc [] = some acc
parse_digits acc (c ∷ s) =
    let next = acc * 10 + (c - 48) in
    let rest = parse_digits next s in if is_digit c && leb next u32_max then rest else none

abbrev pub parse_unsigned : Text → Option ℕ
parse_unsigned [] = none
parse_unsigned (c ∷ s) = parse_digits 0 (c ∷ s)

-- `u32::from_str`: one leading `+` is allowed, and there is at least one digit.
unfoldable pub parse_u32 : Text → Option ℕ
parse_u32 [] = none
parse_u32 (c ∷ s) = if c == 43 then parse_unsigned s else parse_unsigned (c ∷ s)

abbrev pub with_id : Text → Text → Option ℕ → Result ArgumentError (ℕ × Text)
with_id arg path none = err (invalid_op_id arg)
with_id arg path (some op_id) = ok (op_id, path)

abbrev pub with_path : Text → Text → Option Text → Result ArgumentError (ℕ × Text)
with_path arg id_str none = err (expected_id_path arg)
with_path arg id_str (some path) =
    if is_empty path then err (empty_path arg) else with_id arg path (parse_u32 id_str)

unfoldable pub parse_op_blob_arg : Text → Result ArgumentError (ℕ × Text)
unfolding split_colon parse_u32
parse_op_blob_arg arg = let (id_str, path) = split_colon arg in with_path arg id_str path
