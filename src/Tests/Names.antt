-- ===== src/Tests/Names.antt =====
-- The kinds and the registry at concrete inputs.
use clf.Prelude.{◌<◌, ◌≡◌, ◌↔◌, ok, some, arith}
use clf.Utf8.{text}
use clf.Format.{
  executor, memory_movement, try_from_byte, kind_byte, from_str, to_lowercase, display, extension,
}
use clf.Format.Kinds.{try_from_byte_iff, from_str_spellings, from_str-to_lowercase}
use clf.Registry.{custom, gemm, op_type_to_clf_id, clf_id_to_op_type}
use clf.Registry.RoundTrip.{id-op_type-id, op_type-id-op_type, canonical-lt_custom}

try_from_byte_iff_example : (try_from_byte 3 ≡ some executor) ↔ (kind_byte executor ≡ 3)
try_from_byte_iff_example = try_from_byte_iff 3 executor

from_str_spellings_example :
    (from_str (display memory_movement) ≡ ok memory_movement)
    × (from_str (extension memory_movement) ≡ ok memory_movement)
from_str_spellings_example = from_str_spellings memory_movement

from_str-to_lowercase_example :
    (from_str (to_lowercase (text "CLFE")) ≡ ok executor) ↔ (from_str (text "CLFE") ≡ ok executor)
from_str-to_lowercase_example = from_str-to_lowercase (text "CLFE") executor

id-op_type-id_example : op_type_to_clf_id (clf_id_to_op_type 51) ≡ 51
id-op_type-id_example = id-op_type-id 51

op_type-id-op_type_example : clf_id_to_op_type (op_type_to_clf_id (custom 300)) ≡ custom 300
op_type-id-op_type_example = op_type-id-op_type (custom 300) (omega arith)

canonical-lt_custom_example : op_type_to_clf_id gemm < op_type_to_clf_id (custom 256)
canonical-lt_custom_example = canonical-lt_custom gemm 256 tt (omega arith)
