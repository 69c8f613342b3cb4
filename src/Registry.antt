-- ===== src/Registry.antt =====
-- src/op_registry.rs: the operations and their canonical ids.
pub mod RoundTrip
use clf.Prelude.{ℕ, ◌==◌, if◌then◌else◌}

pub data OpType : Type 0 where
  unknown add subtract multiply divide relu sigmoid tanh : OpType
  softmax log_softmax gelu swish abs sqrt pow cos : OpType
  sin exp log convolution max_pool avg_pool global_max_pool global_avg_pool : OpType
  batch_norm layer_norm dropout reshape transpose permute concatenate split : OpType
  slice gather scatter mat_mul gemm reduce_sum reduce_mean reduce_max : OpType
  reduce_min reduce_prod broadcast expand equal not_equal greater greater_equal : OpType
  less less_equal and or not min max : OpType
  custom : ℕ → OpType

unfoldable pub op_type_to_clf_id : OpType → ℕ
op_type_to_clf_id unknown = 0
op_type_to_clf_id (custom id) = id
op_type_to_clf_id add = 1
op_type_to_clf_id subtract = 2
op_type_to_clf_id multiply = 3
op_type_to_clf_id divide = 4
op_type_to_clf_id relu = 10
op_type_to_clf_id sigmoid = 11
op_type_to_clf_id tanh = 12
op_type_to_clf_id softmax = 13
op_type_to_clf_id log_softmax = 14
op_type_to_clf_id gelu = 15
op_type_to_clf_id swish = 16
op_type_to_clf_id abs = 19
op_type_to_clf_id sqrt = 20
op_type_to_clf_id pow = 21
op_type_to_clf_id cos = 22
op_type_to_clf_id sin = 23
op_type_to_clf_id exp = 24
op_type_to_clf_id log = 25
op_type_to_clf_id convolution = 30
op_type_to_clf_id max_pool = 31
op_type_to_clf_id avg_pool = 32
op_type_to_clf_id global_max_pool = 33
op_type_to_clf_id global_avg_pool = 34
op_type_to_clf_id batch_norm = 35
op_type_to_clf_id layer_norm = 36
op_type_to_clf_id dropout = 37
op_type_to_clf_id reshape = 40
op_type_to_clf_id transpose = 41
op_type_to_clf_id permute = 42
op_type_to_clf_id concatenate = 43
op_type_to_clf_id split = 44
op_type_to_clf_id slice = 45
op_type_to_clf_id gather = 46
op_type_to_clf_id scatter = 47
op_type_to_clf_id mat_mul = 50
op_type_to_clf_id gemm = 51
op_type_to_clf_id reduce_sum = 60
op_type_to_clf_id reduce_mean = 61
op_type_to_clf_id reduce_max = 62
op_type_to_clf_id reduce_min = 63
op_type_to_clf_id reduce_prod = 64
op_type_to_clf_id broadcast = 70
op_type_to_clf_id expand = 71
op_type_to_clf_id equal = 80
op_type_to_clf_id not_equal = 81
op_type_to_clf_id greater = 82
op_type_to_clf_id greater_equal = 83
op_type_to_clf_id less = 84
op_type_to_clf_id less_equal = 85
op_type_to_clf_id and = 90
op_type_to_clf_id or = 91
op_type_to_clf_id not = 92
op_type_to_clf_id min = 93
op_type_to_clf_id max = 94

-- The `match` on numerals, one test for each arm.
unfoldable pub clf_id_to_op_type : ℕ → OpType
clf_id_to_op_type op_id =
    if op_id == 0
    then unknown
    else if op_id == 1
    then add
    else if op_id == 2
    then subtract
    else if op_id == 3
    then multiply
    else if op_id == 4
    then divide
    else if op_id == 10
    then relu
    else if op_id == 11
    then sigmoid
    else if op_id == 12
    then tanh
    else if op_id == 13
    then softmax
    else if op_id == 14
    then log_softmax
    else if op_id == 15
    then gelu
    else if op_id == 16
    then swish
    else if op_id == 19
    then abs
    else if op_id == 20
    then sqrt
    else if op_id == 21
    then pow
    else if op_id == 22
    then cos
    else if op_id == 23
    then sin
    else if op_id == 24
    then exp
    else if op_id == 25
    then log
    else if op_id == 30
    then convolution
    else if op_id == 31
    then max_pool
    else if op_id == 32
    then avg_pool
    else if op_id == 33
    then global_max_pool
    else if op_id == 34
    then global_avg_pool
    else if op_id == 35
    then batch_norm
    else if op_id == 36
    then layer_norm
    else if op_id == 37
    then dropout
    else if op_id == 40
    then reshape
    else if op_id == 41
    then transpose
    else if op_id == 42
    then permute
    else if op_id == 43
    then concatenate
    else if op_id == 44
    then split
    else if op_id == 45
    then slice
    else if op_id == 46
    then gather
    else if op_id == 47
    then scatter
    else if op_id == 50
    then mat_mul
    else if op_id == 51
    then gemm
    else if op_id == 60
    then reduce_sum
    else if op_id == 61
    then reduce_mean
    else if op_id == 62
    then reduce_max
    else if op_id == 63
    then reduce_min
    else if op_id == 64
    then reduce_prod
    else if op_id == 70
    then broadcast
    else if op_id == 71
    then expand
    else if op_id == 80
    then equal
    else if op_id == 81
    then not_equal
    else if op_id == 82
    then greater
    else if op_id == 83
    then greater_equal
    else if op_id == 84
    then less
    else if op_id == 85
    then less_equal
    else if op_id == 90
    then and
    else if op_id == 91
    then or
    else if op_id == 92
    then not
    else if op_id == 93
    then min
    else if op_id == 94
    then max
    else custom op_id
