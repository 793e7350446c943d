-- ===== src/Image/Read/Memory.antt =====
-- Reads into memory, of ckpt.Image.Read: the bytes of the file stand where they stood.
use ckpt.Prelude.{ℕ, suc, ◌+◌, ◌-◌, ◌≤◌, ◌≡◌, inl, inr, refl, ap, ◌∙◌, List, ◌++◌, length, arith}
use ckpt.Image.Base.{Region, Machine, contents}
use ckpt.Image.Vm.{Vm, Cell, Changes, IsLawful, range-cases}
use ckpt.Image.Vm.Ranges.{
  Changes-none, Changes-append, restored_byte, store-Changes, contents-split,
}
use ckpt.Image.Read.{Reading, Restart, sys_readall}
use ckpt.Image.Read.Loop.{Steps, loop_lem}
use ckpt.Image.Read.Steps.{Did, Open, Grants}
use ckpt.Image.Write.Laws.{length-contents}

module _ (V : Vm) (k : Machine) (chunk : ℕ → ℕ) (laws : IsLawful V) (r : Region) (a n : ℕ)
    (grants : Grants V k chunk a n r) (m : ℕ → ℕ) where
  -- A change of bytes leaves the cells open.
  pub Changes-Open :
      (b j : ℕ) (s t : V.Space)
      → Changes V b j (restored_byte m) s t
      → Open V k chunk a n s
      → Open V k chunk a n t
  Changes-Open b j s t h open_cells x p q = elim (range-cases b j x) [
    | inl i ↦ ap (λ (c : Cell). c.prot) (h.inside x i.0 i.1) ∙ open_cells x p q
    | inr o ↦ ap (λ (c : Cell). c.prot) (h.outside x o) ∙ open_cells x p q
  ]

  -- After `i` of the `j` bytes from `b` on.
  record Progress (b j : ℕ) (s : V.Space) (i : ℕ) (bs : List ℕ) (t : V.Space) : Type 0 where
    bytes : bs ≡ contents m (b + i) (j - i)
    changed : Changes V b i (restored_byte m) s t
    within : i ≤ j

  Progress-step :
      (b j : ℕ) (s : V.Space)
      → a ≤ b
      → b + j ≤ a + n
      → Open V k chunk a n s
      → Steps V.store chunk (Progress b j s) b j
  Progress-step b j s low high open_cells i xs ys t p =
      let split = contents-split m xs ys (b + i) (j - i) p.bytes in
      let few : length xs ≤ j - i = split.2 in
      let fits : b + i + length xs ≤ a + n = omega (arith, p.within) in
      let (u, stored) =
        grants.stores t (b + i) xs (omega arith) fits (Changes-Open b i s t p.changed open_cells) in
      let at : b + i + length xs ≡ b + (i + length xs) = omega arith in
      let left : j - i - length xs ≡ j - (i + length xs) = omega arith in
      (
        u,
        stored,
        record {
          bytes =
              split.1
              ∙ ap (λ c. contents m c (j - i - length xs)) at
              ∙ ap (contents m (b + (i + length xs))) left;
          changed =
              Changes-append V b i (length xs) (restored_byte m) s t u p.changed
                (store-Changes V laws m (b + i) (length xs) xs t u stored split.0 refl);
          within = omega (arith, p.within);
        },
      )

  -- The memory from `b` on is read from the file.
  pub readall-Did :
      (b j : ℕ) (more : List ℕ) (w : Restart V k chunk)
      → a ≤ b
      → b + j ≤ a + n
      → Open V k chunk a n w.space
      → w.rest ≡ contents m b j ++ more
      → Did V k chunk b j (restored_byte m) more j w.space (sys_readall V k chunk b j w)
  unfolding sys_readall
  readall-Did b j more w low high open_cells e =
      let start : Reading V.Space = record {
        count = 0;
        rest = w.rest;
        target = w.space;
        faulted = w.faulted;
      } in
      let from_start : b ≡ b + 0 = omega arith in
      let all : j ≡ j - 0 = omega arith in
      let begun : Progress b j w.space 0 (contents m b j) w.space = record {
        bytes = ap (λ c. contents m c j) from_start ∙ ap (contents m (b + 0)) all;
        changed = Changes-none V b (restored_byte m) w.space;
        within = omega arith;
      } in
      let r =
        loop_lem V.store chunk (Progress b j w.space) b j (suc j) (contents m b j) more start
          (Progress-step b j w.space low high open_cells) (omega (arith, length-contents m b j))
          (record { rest = e; total = omega (arith, length-contents m b j); holds = begun }) in
      record {
        after = record { rest = more; space = r.target; faulted = w.faulted };
        returns = rw (r.ends) refl;
        rest = refl;
        changes = r.holds.changed;
      }
