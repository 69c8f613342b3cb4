-- ===== src/Registry/RoundTrip.antt =====
-- The two maps of the registry against each other.
use clf.Prelude.{ℕ, ◌≤◌, ◌<◌, ◌≡◌, refl, arith}
use clf.Registry.{OpType, unknown, custom, op_type_to_clf_id, clf_id_to_op_type}

-- A canonical operation, or a custom one in the range that is set aside for producers.
abbrev pub IsAssigned : OpType → Type 0
IsAssigned unknown = Unit
IsAssigned (custom id) = 256 ≤ id
IsAssigned _ = Unit

-- A canonical operation has an id below the range for producers.
abbrev pub IsCanonical : OpType → Type 0
IsCanonical unknown = Unit
IsCanonical (custom id) = ⊥
IsCanonical _ = Unit

-- Every id names the operation that the reverse map gives for it: no id is lost or shared.
pub id-op_type-id : (op_id : ℕ) → op_type_to_clf_id (clf_id_to_op_type op_id) ≡ op_id
unfolding op_type_to_clf_id clf_id_to_op_type
id-op_type-id op_id = ground arith

-- The reverse map returns every canonical operation, and every custom one with an id from 256 on,
-- from its id; so no two of these share an id.
pub op_type-id-op_type :
    (op : OpType) → IsAssigned op → clf_id_to_op_type (op_type_to_clf_id op) ≡ op
unfolding op_type_to_clf_id clf_id_to_op_type
op_type-id-op_type unknown h = refl
op_type-id-op_type (custom id) h = ground arith
op_type-id-op_type _ h = refl

-- Canonical ids lie below 256, and never meet the id of a custom operation from 256 on.
pub canonical-lt_custom :
    (op : OpType) (id : ℕ)
    → IsCanonical op
    → 256 ≤ id
    → op_type_to_clf_id op < op_type_to_clf_id (custom id)
unfolding op_type_to_clf_id
canonical-lt_custom unknown id c h = omega arith
canonical-lt_custom (custom j) id c h = absurd c
canonical-lt_custom _ id c h = omega arith

-- A custom operation that takes a canonical id is not told apart from the canonical operation.
custom_shadowed :
    (op : OpType)
    → IsCanonical op
    → clf_id_to_op_type (op_type_to_clf_id (custom (op_type_to_clf_id op))) ≡ op
unfolding op_type_to_clf_id clf_id_to_op_type
custom_shadowed unknown c = refl
custom_shadowed (custom j) c = absurd c
custom_shadowed _ c = refl
