-- ===== src/FileReader/Section.antt =====
-- src/reader.rs: `op_ids`, `manifest_entries`, `build_code_section` and `BlobIter` of `ClfReader`.
pub mod Code
pub mod Listings
pub mod Iteration
use clf.Prelude.{
  ℕ, List, [], ◌∷◌, ◌++◌, map, Option, none, some, Result, ok, err, Action, pure, ◌>>=◌,
}
use clf.Stream.{invalid_data, entry_not_found}
use clf.Format.{ManifestEntry}
use clf.Reader.{ClfError, io, missing_op_id, MissingOpIdPolicy, fail, skip}
use clf.Reader.Sorting.{sort_by_key}
use clf.FileReader.{ClfReader, get_blob}

unfoldable pub manifest_entries : ClfReader → List ManifestEntry
manifest_entries r = sort_by_key (λ e. e.op_id) (map (λ p. p.1) r.manifest)

unfoldable pub op_ids : ClfReader → List ℕ
op_ids r = sort_by_key (λ k. k) (map (λ p. p.0) r.manifest)

-- The arms of the `match` in the loop.
unfoldable pub append_blob :
    MissingOpIdPolicy → ℕ → List ℕ → Option (List ℕ) → Action ClfReader ClfError (List ℕ)
append_blob policy op_id out (some blob) r = (ok (out ++ blob), r)
append_blob fail op_id out none r = (err (missing_op_id op_id), r)
append_blob skip op_id out none r = (ok out, r)

unfoldable pub build_loop : MissingOpIdPolicy → List ℕ → List ℕ → Action ClfReader ClfError (List ℕ)
build_loop policy out [] = pure out
build_loop policy out (op_id ∷ rest) = do
  blob ← get_blob op_id
  out' ← append_blob policy op_id out blob
  build_loop policy out' rest

unfoldable pub build_code_section : List ℕ → MissingOpIdPolicy → Action ClfReader ClfError (List ℕ)
build_code_section op_ids policy = build_loop policy [] op_ids

pub record BlobIter : Type 0 where
  pub reader : ClfReader
  pub entries : List ManifestEntry

unfoldable pub blobs_iter : ClfReader → BlobIter
unfolding manifest_entries
blobs_iter r = record { reader = r; entries = manifest_entries r }

abbrev pub Item : Type 0
Item = Result ClfError (ℕ × List ℕ)

unfoldable pub item_of : ℕ → Result ClfError (Option (List ℕ)) → Item
item_of op_id (ok (some b)) = ok (op_id, b)
item_of op_id (ok none) = err (io (invalid_data entry_not_found))
item_of op_id (err e) = err e

next_of : List ManifestEntry → ClfReader → Option Item × BlobIter
next_of [] r = (none, record { reader = r; entries = [] })
next_of (e ∷ rest) r =
    let (x, r') = get_blob e.op_id r in
    (some (item_of e.op_id x), record { reader = r'; entries = rest })

-- `Iterator::next`
unfoldable pub next : BlobIter → Option Item × BlobIter
unfolding next_of item_of
next it = next_of it.entries it.reader
