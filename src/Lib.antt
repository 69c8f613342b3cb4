-- ===== src/Lib.antt =====
-- A model of CLF, the Coelanox Library File: a container that maps operation ids to blobs of code.
--
-- The program is a crate with these parts, each with a file here:
--   Format      src/format.rs: constants, `ClfKind`, `ClfHeader`, `ManifestEntry`
--   Registry    src/op_registry.rs: `OpType` and its two maps to and from ids
--   Packer      src/packer.rs: `pack_clf` writes header, manifest and blob store to a stream;
--               Packer/Signature has `append_signature`
--   Reader      src/reader.rs: what both readers share, i.e. policies, errors, the header and manifest
--   FileReader  src/reader.rs: `ClfReader`, with `verify_signature` in FileReader/Verify and
--               `build_code_section`, the listings and `BlobIter` in FileReader/Section
--   BytesReader src/reader.rs: `ClfReaderFromBytes` and `BlobIterFromBytes`
--   Manifest    src/manifest_file.rs: `load_pack_manifest`
--   Sidecar     src/sidecar.rs: the document beside an archive
--   Cli         src/bin/coelanox-packer.rs: `run` and what it calls, on the flags that clap parsed
--   Kernels     kernels/simd/src/lib.rs: the kernels, which archives hold as code. Kernels/Arithmetic,
--               Compare, Movement, Reduce, Matmul, Normalize, Pool and Conv have X_scalar, X_avx2 and
--               the entry point clf_simd_X; Kernels/Abi6 has clf_abi6_X. Elementwise has the loops that
--               many kernels share, Lanes the intrinsics, Memory what raw pointers and loops do.
-- The others carry them: Prelude (tests, lists, results), Bytes (fixed-width little-endian integers),
-- Stream (`Read`, `Write` and `Seek` over the bytes of a file and a position), Utf8, Digest.
-- The packer and the readers meet only through the bytes of a file. Packer/Layout describes these bytes
-- without the writer's steps, and both are compared with that description.
--
-- How the code is rendered:
--   * A method on `&mut self` is an `Action S E A`, a function from the state to a result and the next
--     state; `?` is `>>=`. The state after an error is kept.
--   * Bytes are numbers below 256 and texts are lists of UTF-8 bytes. `u64` and `usize` (of 64 bits)
--     sums wrap around at `2 ^ 64`, and so does `u32` arithmetic at `2 ^ 32`, as in a release build.
--   * The loops of the hashes are recursions on `Acc`, so there is no fuel. The loops over entries are
--     structural, on the list or on the count.
--   * A `HashMap` is an association list. Its order is never seen: listings are sorted.
--   * A stream fails only by what its bytes and position decide: the end of the file, or a seek before
--     its start. A missing file is an error of the file system. Other failures of the system are not
--     modelled. `read` may return fewer bytes than asked for, as `ShortReads` says.
--   * SHA-256 is of the crate sha2, so a parameter (`Sha256` in Digest), of which it is required that
--     updates may be cut anywhere and that a hash has 32 bytes.
--   * The command line works on a map from paths to contents: two paths name two files, every path can
--     be written, and what is printed is a list of lines by their arguments. The parsers and printers of
--     clap, toml and serde_json are parameters or their results.
--   * `to_lowercase` changes ASCII letters only; the words it is compared with have no letter that is
--     the lower case of any other character.
--   * A kernel is an `Action` on a memory: which addresses are mapped, and the float of each. Addresses
--     count floats and, like the sizes, do not wrap around, except where the source multiplies or
--     subtracts before it tests (`Kernels/Conv`, `Kernels/Abi6`). An access to an address that is not
--     mapped is a fault, as a panic is; what was written before stays written.
--   * `f32` is a type with operations, `Floats`, of which nothing is required except, in
--     Kernels/Reduce/Greatest and Least, the order of floats (`Ordered`). `avx2` is the build's feature, and a
--     vector is the list of its eight lanes. `isqrt` is `(x as f64).sqrt() as usize`.
--   * A `while` loop by blocks has one round of fuel more than the count, which Kernels/Halts is about.
-- Not modelled: the panic handler of the kernels, and fuzz targets, examples, tests and scripts.
pub mod Prelude
pub mod Bytes
pub mod Stream
pub mod Utf8
pub mod Format
pub mod Registry
pub mod Packer
pub mod Digest
pub mod Reader
pub mod FileReader
pub mod BytesReader
pub mod Manifest
pub mod Sidecar
pub mod Cli
pub mod Kernels
mod Tests
