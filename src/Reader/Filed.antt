-- ===== src/Reader/Filed.antt =====
-- The table that the manifest is read into: every entry under its own id, and no id twice.
use clf.Prelude.{
  ℕ, zero, suc, ◌≡◌, refl, ap, ◌∙◌, true, false, ◌||◌, List, [], ◌∷◌, map, All, arith, ◌==◌, ==_iff,
  none, some, inl, inr, Bool-cases, Result, ok, err, Action, continue, ◌>>=◌,
}
use clf.Format.{ManifestEntry, entry_size}
use clf.Packer.{contains}
use clf.Reader.{Table, insert, get, read, read_entries, decode_entry}
use clf.Reader.Sorting.Ascending.{Distinct}
use clf.Stream.{Stream}

-- The value of an action, where there is one, has a property.
abbrev pub Holds : {E A : Type 0} → (A → Type 0) → Result E A → Type 0
Holds P (ok a) = P a
Holds P (err e) = Unit {0}

any-Holds : {E A : Type 0} (r : Result E A) → Holds (λ a. Unit {0}) r
any-Holds (ok a) = tt
any-Holds (err e) = tt

module _ {S E A B : Type 0} where
  continue-Holds :
      (Q : A → Type 0) (P : B → Type 0) (r : Result E A) (f : A → Action S E B) (s : S)
      → Holds Q r
      → ((a : A) → Q a → (t : S) → Holds P (f a t).0)
      → Holds P (continue r f s).0
  continue-Holds Q P (ok a) f s q h = h a q s
  continue-Holds Q P (err e) f s q h = tt

  -- What the first step ensures may be used for the second.
  pub bind-Ensures :
      (Q : A → Type 0) (P : B → Type 0) (m : Action S E A) (f : A → Action S E B)
      → ((s : S) → Holds Q (m s).0)
      → ((a : A) → Q a → (s : S) → Holds P (f a s).0)
      → (s : S) → Holds P ((m >>= f) s).0
  bind-Ensures Q P m f q h s = continue-Holds Q P (m s).0 f (m s).1 (q s) h

  pub then-Ensures :
      (P : B → Type 0) (m : Action S E A) (f : A → Action S E B)
      → ((a : A) (s : S) → Holds P (f a s).0)
      → (s : S) → Holds P ((m >>= f) s).0
  then-Ensures P m f h s =
      continue-Holds (λ a. Unit {0}) P (m s).0 f (m s).1 (any-Holds (m s).0) (λ a q t. h a t)

abbrev pub keys : Table → List ℕ
keys m = map (λ p. p.0) m

pub record IsFiled (m : Table) : Type 0 where
  pub own : All (λ p. p.1.op_id ≡ p.0) m
  pub distinct : Distinct (keys m)

pub contains-keys-insert :
    (j k : ℕ) (e : ManifestEntry) (m : Table)
    → contains j (keys (insert k e m)) ≡ (j == k || contains j (keys m))
unfolding contains insert
contains-keys-insert j k e [] = refl
contains-keys-insert j k e ((i, f) ∷ m) = ground (arith, contains-keys-insert j k e m)

insert-All :
    (e : ManifestEntry) (m : Table)
    → All (λ p. p.1.op_id ≡ p.0) m
    → All (λ p. p.1.op_id ≡ p.0) (insert e.op_id e m)
unfolding insert
insert-All e [] h = (refl, tt)
insert-All e ((i, f) ∷ m) h = elim (Bool-cases (i == e.op_id)) [
  | inl same ↦ rw same (refl, h.1)
  | inr other ↦ rw other (h.0, insert-All e m h.1)
]

insert-Distinct :
    (k : ℕ) (e : ManifestEntry) (m : Table) → Distinct (keys m) → Distinct (keys (insert k e m))
unfolding insert Distinct
insert-Distinct k e [] d = (unfold contains in refl, tt)
insert-Distinct k e ((i, f) ∷ m) d = elim (Bool-cases (i == k)) [
  | inl same ↦ let e' : i ≡ k = (==_iff i k).0 same in rw same (rw e' at d.0, d.1)
  | inr other ↦ rw other (
    contains-keys-insert i k e m ∙ ap (λ t. t || contains i (keys m)) other ∙ d.0,
    insert-Distinct k e m d.1,
  )
]

-- Reading the rows of the manifest keeps the table filed.
pub read_entries-IsFiled :
    (n : ℕ) (m : Table) → IsFiled m → (s : Stream) → Holds IsFiled (read_entries n m s).0
unfolding read_entries
read_entries-IsFiled zero m h s = h
read_entries-IsFiled (suc n) m h s =
    then-Ensures IsFiled (read entry_size)
      (λ buf. read_entries n (insert (decode_entry buf).op_id (decode_entry buf) m))
      (λ buf t.
        read_entries-IsFiled n _
          (record {
            own = insert-All (decode_entry buf) m h.own;
            distinct = insert-Distinct (decode_entry buf).op_id (decode_entry buf) m h.distinct;
          })
          t)
      s

pub get-contains :
    (k : ℕ) (m : Table) → contains k (keys m) ≡ elim (get k m) [ none ↦ false | some e ↦ true ]
unfolding contains get
get-contains k [] = refl
get-contains k ((i, f) ∷ m) = elim (Bool-cases (i == k)) [
  | inl same ↦
      let e' : i ≡ k = (==_iff i k).0 same in
      let back : (k == i) ≡ true = ground arith in rw (same, back) refl
  | inr other ↦ let back : (k == i) ≡ false = ground arith in rw (other, back) (get-contains k m)
]

-- The ids of the entries are the keys.
pub map-own :
    (m : Table) → All (λ p. p.1.op_id ≡ p.0) m → map (λ e. e.op_id) (map (λ p. p.1) m) ≡ keys m
map-own [] h = refl
map-own ((i, f) ∷ m) h = rw (h.0) (ap (λ t. i ∷ t) (map-own m h.1))
