-- ===== src/Image/Write/Partial.antt =====
-- A page of which only some bytes can be written, in ckpt.Image.Write.
use ckpt.Prelude.{
  ℕ, zero, suc, ◌+◌, ◌-◌, ◌*◌, ◌≤◌, ◌<◌, ◌≡◌, refl, ap, ◌∙◌, Bool, true, false, Option, none, some,
  List, ◌∷◌, ◌++◌, length, take, min, leb, ltb, ◌==◌, arith,
}
use ckpt.Image.Base.{Region, Machine, returned, contents}
use ckpt.Image.Vm.{Vm}
use ckpt.Image.Write.{
  Writer, memory, write_loop, writeall, write_memory, write_pages, seek_back, overwrite,
}
use ckpt.Image.Write.Laws.{length-contents, overwrite_end}

take-contents : (m : ℕ → ℕ) (a b n : ℕ) → b ≤ n → take b (contents m a n) ≡ contents m a b
take-contents m a zero n h = refl
take-contents m a (suc b) zero h = elim h [ ]
take-contents m a (suc b) (suc n) h = ap (λ l. m a ∷ l) (take-contents m (suc a) b n (omega arith))

module _ (V : Vm) (k : Machine) (query : ℕ → ℕ → Option (List Bool)) where
  -- The first call of write takes `b` bytes, and the second fails.
  memory_partial :
      (a n b : ℕ) (answers : List (Option ℕ)) (w : Writer V k query)
      → b < n
      → w.pos ≡ length w.file
      → w.answers ≡ some b ∷ none ∷ answers
      → write_memory V k query a n w
        ≡ returned b (record w {
          file = w.file ++ contents (memory V k query w) a b;
          pos = w.pos + b;
          answers = answers;
        })
  unfolding write_memory writeall write_loop
  memory_partial a n b answers w few end e =
      let m = memory V k query w in
      let least : min b (length (contents m a n)) ≡ b = ground (arith, length-contents m a n) in
      let short : ltb b (length (contents m a n)) ≡ true = ground (arith, length-contents m a n) in
      let written : overwrite w.file w.pos (contents m a b) ≡ w.file ++ contents m a b =
        ap (λ p. overwrite w.file p (contents m a b)) end ∙ overwrite_end w.file (contents m a b) in
      let count : 0 + b ≡ b = omega arith in
      rw
        (
          e,
          least,
          short,
          take-contents m a b n (omega arith),
          count,
          written,
          length-contents m a b,
        )
        refl

  -- After a page of which only `b` bytes could be written, the loop over the pages ends with the
  -- pages before it, but with the position `b` bytes before the end of these pages: what follows
  -- overwrites the last `b` bytes of what was written before. The process writes at the end of the
  -- file; the first call of write takes `b` bytes, more than none and less than a page, and no more
  -- than the file held before, and the next call fails.
  pub partial_page_misplaced :
      (r : Region) (n p b : ℕ) (answers : List (Option ℕ)) (w : Writer V k query)
      → 0 < b
      → b < k.page_size
      → b ≤ w.pos
      → w.pos ≡ length w.file
      → w.answers ≡ some b ∷ none ∷ answers
      → (w' : Writer V k query) × (write_pages V k query r (suc n) p w.pos w ≡ returned p w')
        × (w'.file ≡ w.file ++ contents (memory V k query w) (r.start + p * k.page_size) b)
        × (w'.pos + b ≡ length w.file)
  unfolding write_pages seek_back
  partial_page_misplaced r n p b answers w some_bytes few held end e =
      let step = memory_partial (r.start + p * k.page_size) k.page_size b answers w few end e in
      let partial : (b == k.page_size) ≡ false = ground arith in
      let not_none : (b == 0) ≡ false = ground arith in
      let back : leb b w.pos ≡ true = ground arith in
      (
        record w {
          file = w.file ++ contents (memory V k query w) (r.start + p * k.page_size) b;
          pos = w.pos - b;
          answers = answers;
        },
        rw step (rw partial (rw not_none (rw back refl))),
        refl,
        omega arith,
      )
