-- ===== src/Kernels.antt =====
-- kernels/simd/src/lib.rs: kernels on arrays of floats, each as scalar code and some for AVX2.
pub mod Floats
pub mod Memory
pub mod Halts
pub mod Lanes
pub mod Elementwise
pub mod Arithmetic
pub mod Compare
pub mod Movement
pub mod Reduce
pub mod Matmul
pub mod Normalize
pub mod Pool
pub mod Conv
pub mod Abi6
