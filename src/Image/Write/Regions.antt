-- ===== src/Image/Write/Regions.antt =====
-- What the functions of ckpt.Image.Write make of the regions of a process: the file that
-- ckpt.Image.Format describes.
use Prim.Native.Nat.{bit_and, bit_or}
use native.Mathlib.Nat.{div-add-mod'}
use ckpt.Prelude.{
  ℕ, zero, suc, ◌+◌, ◌-◌, ◌*◌, ◌/◌, ◌%◌, ◌≤◌, ◌<◌, ◌≡◌, refl, sym, ap, ap₂, ◌∙◌, Bool, true, false,
  Option, some, List, [], ◌∷◌, ◌++◌, length, ◌==◌, leb, ==_refl, ==_iff, arith, inl, inr,
  Bool-cases,
}
use mathlib.Core.List.{append-nil}
use ckpt.Image.Base.{
  Region, Machine, IsMachine, M, contents, only_dirty_pages, cheaper, count_dirty, when, attempt,
  settle,
}
use ckpt.Image.Vm.{
  Vm, Cell, IsLawful, Protects, protect-byte, Permits-small, small-bits, copied_lem, range-cases,
}
use ckpt.Image.Format.{by_pages, as_saved, pages_image, memory_image, region_image}
use ckpt.Image.Write.{
  Writer, write_vm_page, write_dirty, write_vm_region_dirty, write_pages, write_vm_region_all_pages,
  ckpt_vm_protect, read_protect, write_whole, write_vm_region, tell, after_pages,
}
use ckpt.Image.Write.Laws.{
  Writes, write-bind, write-pure, write-end, Writes-eq, write_struct-Writes, write_memory-Writes,
}

pub contents-append :
    (m : ℕ → ℕ) (a i j : ℕ) → contents m a (i + j) ≡ contents m a i ++ contents m (a + i) j
contents-append m a zero j =
    let e : 0 + j ≡ j = omega arith in
    let e' : a ≡ a + 0 = omega arith in ap (contents m a) e ∙ ap (λ b. contents m b j) e'
contents-append m a (suc i) j =
    let e : suc i + j ≡ suc (i + j) = omega arith in
    let e' : suc a + i ≡ a + suc i = omega arith in
    ap (contents m a) e
    ∙ ap (λ l. m a ∷ l)
        (contents-append m (suc a) i j ∙ ap (λ b. contents m (suc a) i ++ contents m b j) e')

no_pages :
    (k : Machine) (query : ℕ → ℕ → Option (List Bool)) (m : ℕ → ℕ) (start : ℕ) (v : List Bool)
    (idx : ℕ)
    → count_dirty v ≡ 0
    → pages_image k query m start v idx ≡ []
unfolding pages_image
no_pages k query m start [] idx h = refl
no_pages k query m start (true ∷ v) idx h = absurd (omega arith)
no_pages k query m start (false ∷ v) idx h = no_pages k query m start v (suc idx) h

module _ (V : Vm) (k : Machine) (query : ℕ → ℕ → Option (List Bool)) (lawful : IsMachine k)
    (tops : ℕ → ℕ) (m : ℕ → ℕ) where
  -- The region is made of pages, the kernel tells which of them are dirty; its protection is within
  -- the maximum of its cells, which allows to read them, and the kernel grants a protection within it.
  pub record Writable (r : Region) : Type 0 where
    pub pages : r.size % k.page_size ≡ 0
    pub flags : List Bool
    pub answered : query r.start r.size ≡ some flags
    pub complete : length flags ≡ r.size / k.page_size
    pub proper : r.prot < 8
    pub within : (x : ℕ) → r.start ≤ x → x < r.start + r.size → bit_and r.prot (tops x) ≡ r.prot
    pub readable :
        read_protect V k query r ≡ true
        → (x : ℕ) → r.start ≤ x
        → x < r.start + r.size
        → bit_and (bit_or r.prot 1) (tops x) ≡ bit_or r.prot 1
    pub protects : Protects V r.start r.size

  page-Writes :
      (r : Region) (offset : ℕ)
      → Writes V k query tops m
          (k.page.bytes offset ++ contents m (r.start + offset) k.page_size)
          (write_vm_page V k query r offset)
          tt
  unfolding write_vm_page
  page-Writes r offset =
      write-bind V k query tops m _ _ _ _ _ _
        (write_struct-Writes V k query tops m k.page offset lawful.page)
        (write-end V k query tops m _ _ _ _ _
          (write_memory-Writes V k query tops m (r.start + offset) k.page_size lawful.paged)
          (λ w. rw (==_refl k.page_size) refl))

  pages-Writes :
      (r : Region) (n p pos : ℕ)
      → Writes V k query tops m
          (contents m (r.start + p * k.page_size) (n * k.page_size))
          (write_pages V k query r n p pos)
          (p + n)
  unfolding write_pages
  pages-Writes r zero p pos =
      let e : 0 ≡ 0 * k.page_size = omega arith in
      let e' : p ≡ p + 0 = omega arith in
      Writes-eq V k query tops m _ _ _ _ _ (ap (contents m (r.start + p * k.page_size)) e) e'
        (write-pure V k query tops m (write_pages V k query r 0 p pos) p (λ w. refl))
  pages-Writes r (suc n) p pos =
      let a = r.start + p * k.page_size in
      let e : k.page_size + n * k.page_size ≡ suc n * k.page_size = grind arith in
      let next : r.start + suc p * k.page_size ≡ a + k.page_size = grind arith in
      let e' : suc p + n ≡ p + suc n = omega arith in
      Writes-eq V k query tops m _ _ _ _ _
        (ap (λ b. contents m a k.page_size ++ contents m b (n * k.page_size)) next
          ∙ sym (contents-append m a k.page_size (n * k.page_size))
          ∙ ap (contents m a) e)
        e'
        (write-bind V k query tops m _ _ _ _ _ _
          (write_memory-Writes V k query tops m a k.page_size lawful.paged)
          (rw (==_refl k.page_size) (pages-Writes r n (suc p) (pos + k.page_size))))

  dirty-Writes :
      (r : Region) (d : ℕ) (v : List Bool) (idx : ℕ)
      → d ≤ idx + count_dirty v
      → Writes V k query tops m
          (pages_image k query m r.start v idx)
          (write_dirty V k query r d v idx (count_dirty v))
          0
  unfolding write_dirty pages_image
  dirty-Writes r d [] idx h = write-pure V k query tops m _ 0 (λ w. refl)
  dirty-Writes r d (true ∷ v) idx h =
      let some_left : (suc (count_dirty v) == 0) ≡ false = ground arith in
      let one_less : suc (count_dirty v) - 1 ≡ count_dirty v = omega arith in
      rw (some_left, one_less)
        (write-bind V k query tops m _ _ _ _ _ _ (page-Writes r (idx * k.page_size))
          (dirty-Writes r d v (suc idx) (omega arith)))
  dirty-Writes r d (false ∷ v) idx h = elim (Bool-cases (count_dirty v == 0)) [
    | inl done ↦
        let zero_left : count_dirty v ≡ 0 = (==_iff _ _).0 done in
        let passed : leb d idx ≡ true = ground arith in
        rw (done, passed)
          (Writes-eq V k query tops m _ _ _ _ _
            (sym (no_pages k query m r.start v (suc idx) zero_left)) zero_left
            (write-pure V k query tops m _ (count_dirty v) (λ w. refl)))
    | inr more ↦ rw more (dirty-Writes r d v (suc idx) (omega arith))
  ]

  region_dirty-Writes :
      (r : Region) (v : List Bool)
      → r.size % k.page_size ≡ 0
      → query r.start r.size ≡ some v
      → length v ≡ r.size / k.page_size
      → Writes V k query tops m
          (k.region.bytes (record r { pages_dirtied = count_dirty v })
            ++ pages_image k query m r.start v 0)
          (write_vm_region_dirty V k query r)
          tt
  unfolding write_vm_region_dirty
  region_dirty-Writes r v paged answered complete =
      let whole : (r.size % k.page_size == 0) ≡ true = (==_iff _ _).1 paged in
      let all : (length v == r.size / k.page_size) ≡ true = (==_iff _ _).1 complete in
      rw (whole, answered, all)
        (write-bind V k query tops m _ _ _ _ _ _
          (write_struct-Writes V k query tops m k.region _ lawful.region)
          (write-end V k query tops m _ _ _ _ _ (dirty-Writes r (count_dirty v) v 0 (omega arith))
            (λ w. refl)))

  module _ (laws : IsLawful V) where
    protect-Writes :
        (r : Region) (p : ℕ)
        → Protects V r.start r.size
        → p < 8
        → ((x : ℕ) → r.start ≤ x → x < r.start + r.size → bit_and p (tops x) ≡ p)
        → Writes V k query tops m [] (ckpt_vm_protect V k query r false p) tt
    unfolding ckpt_vm_protect
    protect-Writes r p grants small within w more at =
        let (t, e) = grants false p w.space (λ x low high.
          Permits-small p (V.view w.space x) small
            (ap (bit_and p) (at.limits x) ∙ within x low high)) in
        let changes = laws.protect_lem r.start r.size false p w.space t e in
        record {
          after = record w { space = t };
          returns = rw e refl;
          file = sym (append-nil w.file);
          at = record {
            end = at.end;
            willing = at.willing;
            enough = omega (arith, at.enough);
            bytes = λ x. protect-byte V laws r.start r.size false p w.space t e x ∙ at.bytes x;
            limits = λ x. elim (range-cases r.start r.size x) [
              | inl i ↦
                  ap (λ (c : Cell). c.max_prot) (changes.inside x i.0 i.1)
                  ∙ copied_lem p _ small
                  ∙ at.limits x
              | inr o ↦ ap (λ (c : Cell). c.max_prot) (changes.outside x o) ∙ at.limits x
            ];
          };
        }

    when-Writes :
        (b : Bool) (f : M (Writer V k query) (Unit {0}))
        → (b ≡ true → Writes V k query tops m [] f tt)
        → Writes V k query tops m [] (when b f) tt
    when-Writes true f h = h refl
    when-Writes false f h = write-pure V k query tops m (when false f) tt (λ w. refl)

    pub attempt-Writes :
        (bs : List ℕ) (f : M (Writer V k query) (Unit {0}))
        → Writes V k query tops m bs f tt
        → Writes V k query tops m bs (attempt f) tt
    attempt-Writes bs f h w more at =
        let p = h w more at in
        record { after = p.after; returns = ap settle p.returns; file = p.file; at = p.at }

    all_pages-Writes :
        (r : Region)
        → r.size % k.page_size ≡ 0
        → Writes V k query tops m
            (contents m r.start r.size)
            (write_vm_region_all_pages V k query r)
            (r.size / k.page_size)
    unfolding write_vm_region_all_pages tell
    all_pages-Writes r paged w more at =
        let start : r.start + 0 * k.page_size ≡ r.start = omega arith in
        let size : r.size / k.page_size * k.page_size ≡ r.size =
          omega (arith, div-add-mod' r.size k.page_size) in
        Writes-eq V k query tops m _ _ (write_pages V k query r (r.size / k.page_size) 0 w.pos) _ _
          (ap₂ (contents m) start size) (omega arith)
          (pages-Writes r (r.size / k.page_size) 0 w.pos) w more at

    whole-Writes :
        (r : Region)
        → Writable r
        → Writes V k query tops m
            (k.region.bytes r ++ contents m r.start r.size)
            (write_whole V k query r)
            tt
    unfolding write_whole tell
    whole-Writes r h w more at =
        write-bind V k query tops m _ _ _ _ _ _
          (write_struct-Writes V k query tops m k.region r lawful.region)
          (write-bind V k query tops m [] _ _ _ _ _
            (when-Writes (read_protect V k query r) _ (λ e.
              protect-Writes r (bit_or r.prot 1) h.protects (small-bits r.prot h.proper).0
                (h.readable e)))
            (Writes-eq V k query tops m _ _ _ _ _ (append-nil _) refl (
              write-bind V k query tops m _ [] _ _ (after_pages V k query r w.pos) _
                (all_pages-Writes r h.pages)
                (rw (==_refl (r.size / k.page_size)) (
                  when-Writes (read_protect V k query r) _ (λ e.
                    attempt-Writes _ _ (protect-Writes r r.prot h.protects h.proper h.within)))))))
          w more at

    pub region-Writes :
        (r : Region)
        → Writable r
        → Writes V k query tops m (region_image k query m r) (write_vm_region V k query r) tt
    unfolding write_vm_region region_image memory_image by_pages as_saved
    region-Writes r h = elim (Bool-cases (only_dirty_pages k r)) [
      | inl only ↦ elim (Bool-cases (cheaper k r)) [
        | inl pages ↦
            rw (only, pages)
              (rw (h.answered) (
                region_dirty-Writes (record r { dirty_only = true }) h.flags h.pages h.answered
                  h.complete))
        | inr all ↦
            rw (only, all)
              (whole-Writes (record r { dirty_only = false })
                (record {
                  pages = h.pages;
                  flags = h.flags;
                  answered = h.answered;
                  complete = h.complete;
                  proper = h.proper;
                  within = h.within;
                  readable = h.readable;
                  protects = h.protects;
                }))
      ]
      | inr whole ↦ rw whole (whole-Writes r h)
    ]
