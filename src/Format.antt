-- ===== src/Format.antt =====
-- src/format.rs: the constants, kinds, header and manifest entry of the CLF format.
pub mod Kinds
pub mod Texts
use clf.Prelude.{ℕ, ◌+◌, ◌-◌, Bool, true, false, ◌&&◌, ◌||◌, List, [], ◌∷◌, Option, none, some}
use clf.Prelude.{leb, ◌==◌, if◌then◌else◌, Result, ok, err}
use clf.Utf8.{Text, text}

-- "CLF1"
abbrev pub clf_magic : List ℕ
clf_magic = 0x43 ∷ 0x4C ∷ 0x46 ∷ 0x31 ∷ []

abbrev pub clf_version : ℕ
clf_version = 2

pub data ClfKind : Type 0 where
  compute memory_movement memory_protection executor : ClfKind

-- `kind as u8`, by the discriminants of the enum.
unfoldable pub kind_byte : ClfKind → ℕ
kind_byte compute = 0
kind_byte memory_movement = 1
kind_byte memory_protection = 2
kind_byte executor = 3

-- the derived `PartialEq`
unfoldable pub kind_eq : ClfKind → ClfKind → Bool
unfolding kind_byte
kind_eq j k = kind_byte j == kind_byte k

abbrev pub default_for_v1 : ClfKind
default_for_v1 = compute

unfoldable pub try_from_byte : ℕ → Option ClfKind
try_from_byte b =
    if b == 0
    then some compute
    else if b == 1
    then some memory_movement
    else if b == 2
    then some memory_protection
    else if b == 3
    then some executor
    else none

unfoldable pub extension : ClfKind → Text
extension compute = text "clfc"
extension memory_movement = text "clfmm"
extension memory_protection = text "clfmp"
extension executor = text "clfe"

-- `Display`
unfoldable pub display : ClfKind → Text
display compute = text "compute"
display memory_movement = text "memory-movement"
display memory_protection = text "memory-protection"
display executor = text "executor"

-- `==` of `str`
unfoldable pub text_eq : Text → Text → Bool
text_eq [] [] = true
text_eq (a ∷ s) (b ∷ t) = a == b && text_eq s t
text_eq _ _ = false

-- `to_lowercase`, for comparison with an ASCII word that has no "k": the lower case of a character
-- beyond ASCII has a character beyond ASCII, or is "k".
unfoldable pub to_lowercase : Text → Text
to_lowercase [] = []
to_lowercase (c ∷ s) = (if leb 65 c && leb c 90 then c + 32 else c) ∷ to_lowercase s

unfoldable pub one_of : List Text → Text → Bool
unfolding text_eq
one_of [] s = false
one_of (w ∷ ws) s = text_eq s w || one_of ws s

abbrev pub compute_words : List Text
compute_words = text "compute" ∷ text "c" ∷ text "clfc" ∷ []

abbrev pub movement_words : List Text
movement_words = text "memory-movement" ∷ text "memorymovement" ∷ text "mm" ∷ text "clfmm" ∷ []

abbrev pub protection_words : List Text
protection_words =
    text "memory-protection" ∷ text "memoryprotection" ∷ text "mp" ∷ text "clfmp" ∷ []

abbrev pub executor_words : List Text
executor_words = text "executor" ∷ text "e" ∷ text "clfe" ∷ []

match_kind : Text → Option ClfKind
unfolding one_of
match_kind s =
    if one_of compute_words s
    then some compute
    else if one_of movement_words s
    then some memory_movement
    else if one_of protection_words s
    then some memory_protection
    else if one_of executor_words s
    then some executor
    else none

or_unknown : Text → Option ClfKind → Result Text ClfKind
or_unknown s none = err s
or_unknown s (some k) = ok k

-- `FromStr`. The error carries the text that its message quotes.
unfoldable pub from_str : Text → Result Text ClfKind
unfolding match_kind to_lowercase or_unknown
from_str s = or_unknown s (match_kind (to_lowercase s))

-- "SIG0"
abbrev pub sig_magic : List ℕ
sig_magic = 0x53 ∷ 0x49 ∷ 0x47 ∷ 0x30 ∷ []

abbrev pub sig_hash_len : ℕ
sig_hash_len = 32

abbrev pub sig_block_len : ℕ
sig_block_len = 4 + sig_hash_len

pub record ClfHeader : Type 0 where
  pub version : ℕ
  pub vendor : Text
  pub target : Text
  pub blob_alignment : ℕ
  pub kind : ClfKind
  pub header_end : ℕ

pub record ManifestEntry : Type 0 where
  pub op_id : ℕ
  pub offset : ℕ
  pub size : ℕ

abbrev pub entry_size : ℕ
entry_size = 4 + 4 + 4
