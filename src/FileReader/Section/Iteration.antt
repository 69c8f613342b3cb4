-- ===== src/FileReader/Section/Iteration.antt =====
-- src/reader.rs: what an iteration over `BlobIter` yields of a packed file.
use mathlib.Core.Option
use clf.Prelude.{
  ℕ, zero, suc, ◌+◌, ◌≤◌, ◌≡◌, refl, sym, ap, ap₂, ◌∙◌, false, ◌||◌, List, [], ◌∷◌, ◌++◌,
  append_assoc, append-nil, map, none, some, ok, All, arith, length, ◌==◌, leb, inl, inr,
  Bool-cases,
}
use clf.FileReader.{ClfReader, get_blob}
use clf.FileReader.Section.{BlobIter, Item, item_of, blobs_iter, next, manifest_entries}
use clf.FileReader.Serving.{Holds, get_blob-Holds}
use clf.Format.{ManifestEntry}
use clf.Packer.Layout.{rows, stored}
use clf.Packer.{Blob, contains, check_duplicates}
use clf.Reader.Fields.{insert_all}
use clf.Reader.Filed.{keys, contains-keys-insert}
use clf.Reader.Sorting.Ascending.{map-sort_by_key}
use clf.Reader.Sorting.{place, sort_by_key}
use clf.Reader.Table.{blob_of, ids, fresh_head, distinct_rest}
use clf.Reader.{Table, insert}

-- The items of at most `n` calls of `next`.
unfoldable pub drain : ℕ → BlobIter → List Item
unfolding next
drain zero it = []
drain (suc n) it =
    let rest = drain n (next it).1 in elim (next it).0 [ none ↦ [] | some item ↦ item ∷ rest ]

insert_fresh :
    (k : ℕ) (e : ManifestEntry) (m : Table)
    → contains k (keys m) ≡ false
    → map (λ p. p.1) (insert k e m) ≡ map (λ p. p.1) m ++ (e ∷ [])
unfolding insert contains
insert_fresh k e [] h = refl
insert_fresh k e ((j, f) ∷ m) h =
    let other : (j == k) ≡ false = ground arith in
    let rest : contains k (keys m) ≡ false = ground arith in
    rw other (ap (λ t. f ∷ t) (insert_fresh k e m rest))

-- The entries of the table are the rows, in their order.
entries_of_rows :
    (a offset : ℕ) (seen : List ℕ) (entries : List Blob) (m : Table)
    → check_duplicates seen entries ≡ ok tt
    → ((k : ℕ) → contains k (keys m) ≡ contains k seen)
    → map (λ p. p.1) (insert_all (rows a offset entries) m)
      ≡ map (λ p. p.1) m ++ rows a offset entries
unfolding rows insert_all
entries_of_rows a offset seen [] m d same = sym (append-nil (map (λ p. p.1) m))
entries_of_rows a offset seen ((j, blob) ∷ rest) m d same =
    let e : ManifestEntry = record { op_id = j; offset = offset; size = length (stored a blob) } in
    let fresh : contains j seen ≡ false = unfold check_duplicates in ground arith in
    entries_of_rows a (offset + length (stored a blob)) (j ∷ seen) rest (insert j e m)
      (distinct_rest seen j blob rest d)
      (λ k. contains-keys-insert k j e m ∙ (unfold contains in ap (λ t. k == j || t) (same k)))
    ∙ ap (λ t. t ++ rows a (offset + length (stored a blob)) rest)
        (insert_fresh j e m (same j ∙ fresh))
    ∙ append_assoc (map (λ p. p.1) m) (e ∷ []) (rows a (offset + length (stored a blob)) rest)

ids_of_rows :
    (a offset : ℕ) (entries : List Blob)
    → map (λ e. e.op_id) (rows a offset entries) ≡ map (λ b. b.0) entries
unfolding rows
ids_of_rows a offset [] = refl
ids_of_rows a offset ((j, blob) ∷ rest) =
    ap (λ t. j ∷ t) (ids_of_rows a (offset + length (stored a blob)) rest)

map_after :
    {A B C : Type 0} (g : B → C) (f : A → B) (xs : List A)
    → map (λ x. g (f x)) xs ≡ map g (map f xs)
map_after g f [] = refl
map_after g f (x ∷ xs) = ap (λ t. g (f x) ∷ t) (map_after g f xs)

map-All : {A B : Type 0} (f g : A → B) (xs : List A) → All (λ x. f x ≡ g x) xs → map f xs ≡ map g xs
map-All f g [] h = refl
map-All f g (x ∷ xs) h = ap₂ (λ y ys. y ∷ ys) h.0 (map-All f g xs h.1)

All-place :
    {A : Type 0} (P : A → Type 0) (key : A → ℕ) (x : A) (ys : List A)
    → P x
    → All P ys
    → All P (place key x ys)
unfolding place
All-place P key x [] p h = (p, tt)
All-place P key x (y ∷ ys) p h = elim (Bool-cases (leb (key x) (key y))) [
  | inl le ↦ rw le (p, h)
  | inr gt ↦ rw gt (h.0, All-place P key x ys p h.1)
]

All-sort :
    {A : Type 0} (P : A → Type 0) (key : A → ℕ) (xs : List A)
    → All P xs
    → All P (sort_by_key key xs)
unfolding sort_by_key
All-sort P key [] h = tt
All-sort P key (x ∷ xs) h = All-place P key x (sort_by_key key xs) h.0 (All-sort P key xs h.1)

-- What is found behind the first blob is found where the first blob is put before, under another id.
behind :
    (j : ℕ) (blob : List ℕ) (all rest : List Blob)
    → contains j (ids rest) ≡ false
    → All (λ b. blob_of b.0 all ≡ some b.1) rest
    → All (λ b. blob_of b.0 ((j, blob) ∷ all) ≡ some b.1) rest
unfolding contains ids blob_of
behind j blob all [] h found = tt
behind j blob all ((i, other) ∷ rest) h found =
    let apart : (j == i) ≡ false = ground arith in
    let later : contains j (ids rest) ≡ false = ground arith in
    (rw apart found.0, behind j blob all rest later found.1)

All-found :
    (seen : List ℕ) (entries : List Blob)
    → check_duplicates seen entries ≡ ok tt
    → All (λ b. blob_of b.0 entries ≡ some b.1) entries
unfolding blob_of
All-found seen [] d = tt
All-found seen ((j, blob) ∷ rest) d = (
  ground arith,
  behind j blob rest rest (fresh_head seen j blob rest d)
      (All-found (j ∷ seen) rest (distinct_rest seen j blob rest d)),
)

-- What is packed under an id, as an item.
abbrev item_at : ℕ → List Blob → ℕ → Item
item_at a entries k = item_of k (ok (Option.map (stored a) (blob_of k entries)))

drain_entries :
    (a : ℕ) (entries : List Blob) (n : ℕ) (es : List ManifestEntry) (r : ClfReader)
    → Holds a entries r
    → length es ≤ n
    → drain n (record { reader = r; entries = es }) ≡ map (λ e. item_at a entries e.op_id) es
unfolding drain next
drain_entries a entries zero [] r h room = refl
drain_entries a entries zero (e ∷ es) r h room = absurd (omega arith)
drain_entries a entries (suc n) [] r h room = refl
drain_entries a entries (suc n) (e ∷ es) r h room =
    ap₂ (λ x xs. item_of e.op_id x ∷ xs) (get_blob-Holds h e.op_id).0
      (drain_entries a entries n es (get_blob e.op_id r).1 (get_blob-Holds h e.op_id).1
        (omega arith))

-- The calls of `next` up to the first that returns `None`, at most `n` of them, yield exactly the packed
-- blobs, each with its id and as stored, sorted by the ids, where the reader stands over packed blobs
-- and `n` is at least the number of its entries.
pub drain-blobs_iter :
    (a n : ℕ) (entries : List Blob) (r : ClfReader)
    → Holds a entries r
    → length (manifest_entries r) ≤ n
    → drain n (blobs_iter r) ≡ map (λ b. ok (b.0, stored a b.1)) (sort_by_key (λ b. b.0) entries)
unfolding blobs_iter manifest_entries
drain-blobs_iter a n entries r h room =
    drain_entries a entries n (sort_by_key (λ e. e.op_id) (map (λ p. p.1) r.manifest)) r h room
    ∙ map_after (item_at a entries) (λ e. e.op_id)
        (sort_by_key (λ e. e.op_id) (map (λ p. p.1) r.manifest))
    ∙ ap (map (item_at a entries)) (
        map-sort_by_key (λ e. e.op_id) (map (λ p. p.1) r.manifest)
        ∙ ap (sort_by_key (λ k. k)) (ap (map (λ e. e.op_id)) in_table ∙ ids_of_rows a 0 entries)
        ∙ sym (map-sort_by_key (λ b. b.0) entries))
    ∙ sym (map_after (item_at a entries) (λ b. b.0) (sort_by_key (λ b. b.0) entries))
    ∙ map-All (λ b. item_at a entries b.0) (λ b. ok (b.0, stored a b.1))
        (sort_by_key (λ b. b.0) entries)
        (All-sort (λ b. item_at a entries b.0 ≡ ok (b.0, stored a b.1)) (λ b. b.0) entries
          (found_items entries (All-found [] entries h.distinct)))
  where
    in_table : map (λ p. p.1) r.manifest ≡ rows a 0 entries
    in_table =
        ap (map (λ p. p.1)) h.manifest_eq
        ∙ entries_of_rows a 0 [] entries [] h.distinct (λ k. unfold contains in refl)

    found_items :
        (bs : List Blob)
        → All (λ b. blob_of b.0 entries ≡ some b.1) bs
        → All (λ b. item_at a entries b.0 ≡ ok (b.0, stored a b.1)) bs
    found_items [] h' = tt
    found_items (b ∷ bs) h' = (item_found b h'.0, found_items bs h'.1)
      where
        item_found :
            (c : Blob)
            → blob_of c.0 entries ≡ some c.1
            → item_at a entries c.0 ≡ ok (c.0, stored a c.1)
        item_found c e = rw e (unfold item_of in refl)
