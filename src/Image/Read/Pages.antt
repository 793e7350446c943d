-- ===== src/Image/Read/Pages.antt =====
-- The loop over the dirty pages of a region, of ckpt.Image.Read.
use native.Mathlib.Nat.{div-eq_of_lt-le, div-mul-le_self, lt-div-mul-add}
use ckpt.Prelude.{
  ℕ, suc, ◌+◌, ◌-◌, ◌*◌, ◌/◌, ◌≤◌, ◌<◌, ◌≡◌, ◌⊎◌, inl, inr, refl, ap, ◌∙◌, subst, Bool, true, false,
  Option, List, [], ◌∷◌, ◌++◌, length, ◌==◌, ==_refl, ==_iff, arith, if◌then◌else◌, Bool-cases,
}
use mathlib.Core.List.{append_assoc}
use ckpt.Image.Base.{Region, Machine, IsMachine, contents, count_dirty}
use ckpt.Image.Vm.{Vm, Cell, Changes, Outside, IsLawful, range-cases}
use ckpt.Image.Vm.Ranges.{restored_byte}
use ckpt.Image.Format.{pages_image}
use ckpt.Image.Read.{Restart, ckpt_vm_page_restore, restore_pages}
use ckpt.Image.Read.Loop.{read_struct_lem}
use ckpt.Image.Read.Steps.{Did, Open, Grants}
use ckpt.Image.Read.Memory.{readall-Did, Changes-Open}

-- Whether the page of number `p` is among those that are marked in `v`, whose first has number `idx`.
abbrev pub marked : List Bool → ℕ → ℕ → Bool
marked [] idx p = false
marked (d ∷ v) idx p = if p == idx then d else marked v (suc idx) p

marked_below : (v : List Bool) (idx p : ℕ) → p < idx → marked v idx p ≡ false
marked_below [] idx p h = refl
marked_below (d ∷ v) idx p h =
    let other : (p == idx) ≡ false = ground arith in
    rw other (marked_below v (suc idx) p (omega arith))

-- The cells of the marked pages of a region that starts at `start` get their bytes.
abbrev pub paged : Machine → ℕ → (ℕ → ℕ) → List Bool → ℕ → ℕ → Cell → Cell
paged k start m v idx x c =
    if marked v idx ((x - start) / k.page_size) then restored_byte m x c else c

page_number : (y p i : ℕ) → 0 < p → i * p ≤ y → y < i * p + p → y / p ≡ i
page_number y p i h low high =
    let e : (i + 1) * p ≡ i * p + p = grind arith in div-eq_of_lt-le p low (omega arith)

page_range : (y p : ℕ) → 0 < p → (y / p * p ≤ y) × (y < y / p * p + p)
page_range y p h = (div-mul-le_self y p, lt-div-mul-add h)

other_page : (y p i : ℕ) → 0 < p → (y < i * p) ⊎ (i * p + p ≤ y) → (y / p == i) ≡ false
other_page y p i h o = elim (Bool-cases (y / p == i)) [
  | inr differs ↦ differs
  | inl same ↦
      let e : y / p ≡ i = (==_iff _ _).0 same in
      let range : (i * p ≤ y) × (y < i * p + p) =
        subst (λ j. (j * p ≤ y) × (y < j * p + p)) e (page_range y p h) in
      absurd (outside o range)
]
  where
    outside : (y < i * p) ⊎ (i * p + p ≤ y) → (i * p ≤ y) × (y < i * p + p) → ⊥
    outside (inl o) range = omega arith
    outside (inr o) range = omega arith

module _ (V : Vm) (k : Machine) (chunk : ℕ → ℕ) (laws : IsLawful V) (lawful : IsMachine k)
    (query : ℕ → ℕ → Option (List Bool)) (r : Region) (n : ℕ)
    (grants : Grants V k chunk r.start n r) (m : ℕ → ℕ) where
  page-Did :
      (idx : ℕ) (more : List ℕ) (w : Restart V k chunk)
      → (idx + 1) * k.page_size ≤ n
      → Open V k chunk r.start n w.space
      → w.rest ≡ contents m (r.start + idx * k.page_size) k.page_size ++ more
      → Did V k chunk
          (r.start + idx * k.page_size)
          k.page_size
          (restored_byte m)
          more
          tt
          w.space
          (ckpt_vm_page_restore V k chunk r (idx * k.page_size) w)
  unfolding ckpt_vm_page_restore
  page-Did idx more w fits open_cells e =
      let high : (idx + 1) * k.page_size ≡ idx * k.page_size + k.page_size = grind arith in
      let p =
        readall-Did V k chunk laws r r.start n grants m (r.start + idx * k.page_size) k.page_size
          more w (omega arith) (omega arith) open_cells e in
      record {
        after = p.after;
        returns = rw (p.returns) (rw (==_refl k.page_size) refl);
        rest = p.rest;
        changes = p.changes;
      }

  paged_cons :
      (v : List Bool) (idx : ℕ) (s t u : V.Space)
      → (idx + 1) * k.page_size ≤ n
      → Changes V (r.start + idx * k.page_size) k.page_size (restored_byte m) s t
      → Changes V r.start n (paged k r.start m v (suc idx)) t u
      → Changes V r.start n (paged k r.start m (true ∷ v) idx) s u
  paged_cons v idx s t u fits h g = record {
    inside =
        λ x low high. split x low high (range-cases (r.start + idx * k.page_size) k.page_size x);
    outside = λ x o. g.outside x o ∙ h.outside x (beyond x o);
  }
    where
      page_end : (idx + 1) * k.page_size ≡ idx * k.page_size + k.page_size
      page_end = grind arith

      beyond : (x : ℕ) → Outside r.start n x → Outside (r.start + idx * k.page_size) k.page_size x
      beyond x (inl o) = inl (omega arith)
      beyond x (inr o) = inr (omega (arith, page_end))

      from_start :
          (x : ℕ)
          → r.start ≤ x
          → Outside (r.start + idx * k.page_size) k.page_size x
          → (x - r.start < idx * k.page_size) ⊎ (idx * k.page_size + k.page_size ≤ x - r.start)
      from_start x low (inl o) = inl (omega arith)
      from_start x low (inr o) = inr (omega arith)

      split :
          (x : ℕ)
          → r.start ≤ x
          → x < r.start + n
          → ((r.start + idx * k.page_size ≤ x) × (x < r.start + idx * k.page_size + k.page_size))
            ⊎ Outside (r.start + idx * k.page_size) k.page_size x
          → V.view u x ≡ paged k r.start m (true ∷ v) idx x (V.view s x)
      split x low high (inl i) =
          let number : (x - r.start) / k.page_size ≡ idx =
            page_number (x - r.start) k.page_size idx lawful.paged (omega arith) (omega arith) in
          let here : ((x - r.start) / k.page_size == idx) ≡ true = (==_iff _ _).1 number in
          let later : marked v (suc idx) ((x - r.start) / k.page_size) ≡ false =
            marked_below v (suc idx) ((x - r.start) / k.page_size) (omega arith) in
          rw here (g.inside x low high ∙ rw later (h.inside x i.0 i.1))
      split x low high (inr o) =
          let there : ((x - r.start) / k.page_size == idx) ≡ false =
            other_page (x - r.start) k.page_size idx lawful.paged (from_start x low o) in
          rw there (g.inside x low high ∙ ap (paged k r.start m v (suc idx) x) (h.outside x o))

  paged_skip :
      (v : List Bool) (idx : ℕ) (s u : V.Space)
      → Changes V r.start n (paged k r.start m v (suc idx)) s u
      → Changes V r.start n (paged k r.start m (false ∷ v) idx) s u
  paged_skip v idx s u g = record {
    inside = λ x low high. elim (Bool-cases ((x - r.start) / k.page_size == idx)) [
      | inl here ↦
          let number : (x - r.start) / k.page_size ≡ idx = (==_iff _ _).0 here in
          let later : marked v (suc idx) ((x - r.start) / k.page_size) ≡ false =
            marked_below v (suc idx) ((x - r.start) / k.page_size) (omega arith) in
          rw here (g.inside x low high ∙ rw later refl)
      | inr there ↦ rw there (g.inside x low high)
    ];
    outside = g.outside;
  }

  -- The marked pages of the region are read, each behind its offset.
  pub pages-Did :
      (v : List Bool) (idx : ℕ) (more : List ℕ) (w : Restart V k chunk)
      → (idx + length v) * k.page_size ≤ n
      → Open V k chunk r.start n w.space
      → w.rest ≡ pages_image k query m r.start v idx ++ more
      → Did V k chunk r.start n
          (paged k r.start m v idx)
          more
          tt
          w.space
          (restore_pages V k chunk (count_dirty v) r w)
  unfolding restore_pages pages_image
  pages-Did [] idx more w fits open_cells e = record {
    after = w;
    returns = refl;
    rest = e;
    changes = record { inside = λ x p q. refl; outside = λ x p. refl };
  }
  pages-Did (false ∷ v) idx more w fits open_cells e =
      let shift : idx + suc (length v) ≡ suc idx + length v = omega arith in
      let p =
        pages-Did v (suc idx) more w (subst (λ i. i * k.page_size ≤ n) shift fits) open_cells e in
      record {
        after = p.after;
        returns = p.returns;
        rest = p.rest;
        changes = paged_skip v idx w.space p.after.space p.changes;
      }
  pages-Did (true ∷ v) idx more w fits open_cells e =
      let shift : idx + suc (length v) ≡ suc idx + length v = omega arith in
      let fits' : (suc idx + length v) * k.page_size ≤ n =
        subst (λ i. i * k.page_size ≤ n) shift fits in
      let fits1 : (idx + 1) * k.page_size ≤ n = grind arith in
      let offset = idx * k.page_size in
      let page = contents m (r.start + offset) k.page_size in
      let others = pages_image k query m r.start v (suc idx) in
      let behind : w.rest ≡ k.page.bytes offset ++ (page ++ (others ++ more)) =
        e
        ∙ append_assoc (k.page.bytes offset ++ page) others more
        ∙ append_assoc (k.page.bytes offset) page (others ++ more) in
      let w1 = record w { rest = page ++ (others ++ more) } in
      let first =
        read_struct_lem V k chunk k.page offset (page ++ (others ++ more)) w lawful.page behind in
      let p = page-Did idx (others ++ more) w1 fits1 open_cells refl in
      let q =
        pages-Did v (suc idx) more p.after fits'
          (Changes-Open V k chunk laws r r.start n grants m (r.start + offset) k.page_size w.space
            p.after.space p.changes open_cells)
          p.rest in
      record {
        after = q.after;
        returns = rw first (rw (p.returns) q.returns);
        rest = q.rest;
        changes = paged_cons v idx w.space p.after.space q.after.space fits1 p.changes q.changes;
      }
