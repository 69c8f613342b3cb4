-- ===== src/FileReader/Section/Listings.antt =====
-- src/reader.rs: what `op_ids` and `manifest_entries` list of a file that has been opened.
use mathlib.Core.List.{Permᴰ}
use clf.Prelude.{ℕ, ◌≡◌, ap, ◌∙◌, true, false, [], map, Option, none, some, Result, ok}
use clf.FileReader.{ClfReader, open_stream, read_count, find_signature, seek_to}
use clf.FileReader.Section.{manifest_entries, op_ids}
use clf.Format.{ClfKind}
use clf.Packer.{contains}
use clf.Reader.{ClfError, get, read_header, check_kind, read_entries, position}
use clf.Reader.Filed.{
  Holds, then-Ensures, bind-Ensures, keys, IsFiled, read_entries-IsFiled, get-contains, map-own,
}
use clf.Reader.Sorting.Ascending.{
  IsAscending, Distinct, map-sort_by_key, sort_by_key-Perm, sort-contains, sort-IsAscending,
}
use clf.Reader.Sorting.{sort_by_key}
use clf.Stream.{Stream}

Filed : ClfReader → Type 0
Filed r = IsFiled r.manifest

open_stream-Filed :
    (expected : Option ClfKind) (s : Stream) → Holds Filed (open_stream expected s).0
unfolding open_stream Filed
open_stream-Filed expected = then-Ensures Filed read_header _ (λ header.
    then-Ensures Filed (check_kind expected header) _ (λ t.
      then-Ensures Filed read_count _ (λ counted.
        bind-Ensures IsFiled Filed (read_entries counted.0 []) _
          (read_entries-IsFiled counted.0 []
            (record { own = tt; distinct = unfold Distinct in tt }))
          (λ manifest filed. then-Ensures Filed position _ (λ blob_store_offset.
            then-Ensures Filed (find_signature counted.1) _
              (λ has_sig. then-Ensures Filed (seek_to blob_store_offset) _ (λ at u. filed)))))))

opened : (x : Result ClfError ClfReader) (r : ClfReader) → Holds Filed x → x ≡ ok r → Filed r
opened x r h e = rw e at h

-- Of a file that opens, `op_ids` lists strictly ascending ids, which are exactly those under which the
-- table has an entry, and `manifest_entries` lists all the entries of the table, in the order of these
-- ids.
pub open_stream-op_ids :
    (expected : Option ClfKind) (s : Stream) (r : ClfReader)
    → (open_stream expected s).0 ≡ ok r
    → IsAscending (op_ids r)
      × (map (λ e. e.op_id) (manifest_entries r) ≡ op_ids r)
      × Permᴰ (manifest_entries r) (map (λ p. p.1) r.manifest)
      × ((k : ℕ) → contains k (op_ids r) ≡ elim (get k r.manifest) [ none ↦ false | some e ↦ true ])
unfolding op_ids manifest_entries Filed
open_stream-op_ids expected s r e =
    let filed = opened (open_stream expected s).0 r (open_stream-Filed expected s) e in
    (
      sort-IsAscending (keys r.manifest) filed.distinct,
      map-sort_by_key (λ e. e.op_id) (map (λ p. p.1) r.manifest)
          ∙ ap (sort_by_key (λ k. k)) (map-own r.manifest filed.own),
      sort_by_key-Perm (λ e. e.op_id) (map (λ p. p.1) r.manifest),
      λ k. sort-contains k (keys r.manifest) ∙ get-contains k r.manifest,
    )
