-- ===== src/Stream/Reads.antt =====
-- Reading what stands at the position: rules for each way to build a reader.
use clf.Prelude.{ℕ, ◌+◌, ◌≡◌, sym, ap, ◌∙◌, List, [], ◌++◌, append_assoc, arith}
use clf.Prelude.{length, drop, length-append, take-append, drop-drop, drop-append, ==_refl}
use clf.Prelude.{ok, Action, pure, convert, ◌>>=◌}
use mathlib.Core.Path.{subst, subst₂}
use clf.Prelude.{take, length-take, length-drop, ◌≤◌, ◌<◌, ◌-◌, le→ltb, err}
use clf.Stream.{unexpected_eof, seek_end}
use clf.Prelude.{append-nil}
use clf.Stream.{Stream, read_exact, stream_position}

abbrev pub at_pos : List ℕ → ℕ → Stream
at_pos bytes pos = record { bytes = bytes; pos = pos }

-- At position `p`, before `xs`, `m` returns `a` and stands behind `xs`, whatever comes next.
pub record Reads {E A : Type 0} (m : Action Stream E A) (p : ℕ) (xs : List ℕ) (a : A) : Type 0 where
  pub at :
      (bytes rest : List ℕ)
      → drop p bytes ≡ xs ++ rest
      → m (at_pos bytes p) ≡ (ok a, at_pos bytes (p + length xs))

pub drop-rest :
    (p : ℕ) (bytes xs rest : List ℕ) → drop p bytes ≡ xs ++ rest → drop (p + length xs) bytes ≡ rest
drop-rest p bytes xs rest h =
    sym (drop-drop (length xs) p bytes) ∙ ap (drop (length xs)) h ∙ drop-append xs rest

pub Reads-read_exact : (p : ℕ) (xs : List ℕ) → Reads (read_exact (length xs)) p xs xs
unfolding read_exact
Reads-read_exact p xs = record { at = λ bytes rest h. simp (h, take-append, ==_refl) }

pub Reads-stream_position : (p : ℕ) → Reads stream_position p [] p
unfolding stream_position
Reads-stream_position p = record {
  at = λ bytes rest h. ap (λ k. (ok p, at_pos bytes k)) (omega arith);
}

module _ {E A : Type 0} where
  pub Reads-pure : (a : A) (p : ℕ) → Reads {E = E} (pure a) p [] a
  Reads-pure a p = record { at = λ bytes rest h. ap (λ k. (ok a, at_pos bytes k)) (omega arith) }

  pub Reads-at :
      {m : Action Stream E A} {p q : ℕ} {xs ys : List ℕ} {a : A}
      → p ≡ q
      → xs ≡ ys
      → Reads m p xs a
      → Reads m q ys a
  Reads-at {m} {p} {q} {xs} {ys} {a} e f r = subst₂ (λ k zs. Reads m k zs a) e f r

module _ {E D A : Type 0} where
  pub Reads-convert :
      (f : E → D) {m : Action Stream E A} {p : ℕ} {xs : List ℕ} {a : A}
      → Reads m p xs a
      → Reads (convert f m) p xs a
  Reads-convert f r = record { at = λ bytes rest h. rw (r.at bytes rest h) }

module _ {E A B : Type 0} where
  pub Reads-bind :
      (m : Action Stream E A) (f : A → Action Stream E B) (p : ℕ) (xs ys : List ℕ) (a : A) (b : B)
      → Reads m p xs a
      → Reads (f a) (p + length xs) ys b
      → Reads (m >>= f) p (xs ++ ys) b
  Reads-bind m f p xs ys a b r k = record {
    at = λ bytes rest h.
        let h' = h ∙ append_assoc xs ys rest in
        rw (r.at bytes (ys ++ rest) h') (
          k.at bytes rest (drop-rest p bytes xs (ys ++ rest) h')
          ∙ ap (λ n. (ok b, at_pos bytes n)) (omega (arith, length-append xs ys)));
  }

  -- The rest reads nothing more.
  pub Reads-ending :
      (m : Action Stream E A) (f : A → Action Stream E B) (p : ℕ) (xs : List ℕ) (a : A) (b : B)
      → Reads m p xs a
      → Reads (f a) (p + length xs) [] b
      → Reads (m >>= f) p xs b
  Reads-ending m f p xs a b r k =
      subst (λ zs. Reads (m >>= f) p zs b) (append-nil xs) (Reads-bind m f p xs [] a b r k)

-- The operations at a position, one equation each.
pub read_exact_lem :
    (n pos : ℕ) (bytes : List ℕ)
    → pos + n ≤ length bytes
    → read_exact n (at_pos bytes pos) ≡ (ok (take n (drop pos bytes)), at_pos bytes (pos + n))
unfolding read_exact
read_exact_lem n pos bytes h =
    let e : length (take n (drop pos bytes)) ≡ n =
      omega (arith, length-take n (drop pos bytes), length-drop pos bytes) in
    rw (e, ==_refl n)

pub read_exact_short :
    (n pos : ℕ) (bytes : List ℕ)
    → length bytes - pos < n
    → (read_exact n (at_pos bytes pos)).0 ≡ err unexpected_eof
unfolding read_exact
read_exact_short n pos bytes h =
    ground (arith, length-take n (drop pos bytes), length-drop pos bytes)

pub seek_end_lem :
    (k pos : ℕ) (bytes : List ℕ)
    → k ≤ length bytes
    → seek_end k (at_pos bytes pos) ≡ (ok (length bytes - k), at_pos bytes (length bytes - k))
unfolding seek_end
seek_end_lem k pos bytes h = rw (le→ltb (length bytes) k h)
