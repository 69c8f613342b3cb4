-- ===== src/Stream/Appends.antt =====
-- Writing at the end of the stream: rules for each way to build a writer.
use clf.Prelude.{ℕ, ◌+◌, ◌≡◌, sym, ap, ◌∙◌, List, [], ◌++◌, append_assoc, append-nil, arith}
use clf.Prelude.{length, length-append, take_all, drop_all}
use clf.Prelude.{ok, Action, pure, convert, ◌>>=◌}
use clf.Stream.{Stream, write_all}

abbrev pub at_end : List ℕ → Stream
at_end bytes = record { bytes = bytes; pos = length bytes }

-- At the end of any stream `m` returns `a`, has written `xs`, and stands at the end again.
pub record Appends {E A : Type 0} (m : Action Stream E A) (xs : List ℕ) (a : A) : Type 0 where
  pub at : (bytes : List ℕ) → m (at_end bytes) ≡ (ok a, at_end (bytes ++ xs))

pub Appends-write_all : (xs : List ℕ) → Appends (write_all xs) xs tt
unfolding write_all
Appends-write_all xs = record {
  at = λ bytes. simp (
    take_all (length bytes) bytes (omega arith),
    drop_all (length bytes + length xs) bytes (omega arith),
    append-nil,
    length-append,
  );
}

module _ {E A : Type 0} where
  pub Appends-pure : (a : A) → Appends {E = E} (pure a) [] a
  Appends-pure a = record { at = λ bytes. ap (λ b. (ok a, at_end b)) (sym (append-nil bytes)) }

module _ {E D A : Type 0} where
  pub Appends-convert :
      (f : E → D) {m : Action Stream E A} {xs : List ℕ} {a : A}
      → Appends m xs a
      → Appends (convert f m) xs a
  Appends-convert f r = record { at = λ bytes. rw (r.at bytes) }

module _ {E A B : Type 0} where
  pub Appends-bind :
      (m : Action Stream E A) (f : A → Action Stream E B) (xs ys : List ℕ) (a : A) (b : B)
      → Appends m xs a
      → Appends (f a) ys b
      → Appends (m >>= f) (xs ++ ys) b
  Appends-bind m f xs ys a b r k = record {
    at = λ bytes.
        rw (r.at bytes)
          (k.at (bytes ++ xs) ∙ ap (λ z. (ok b, at_end z)) (append_assoc bytes xs ys));
  }
