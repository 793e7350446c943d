-- ===== src/Image/Read/Regions.antt =====
-- The restore of one region, of ckpt.Image.Read.
use Prim.Native.Nat.{bit_and, bit_or}
use ckpt.Prelude.{
  ℕ, ◌+◌, ◌-◌, ◌*◌, ◌/◌, ◌≤◌, ◌<◌, ◌≡◌, inl, inr, refl, sym, ap, ◌∙◌, subst, Bool, true, false,
  Option, List, ◌++◌, length, ==_refl, arith, Bool-cases,
}
use ckpt.Image.Base.{
  Region, Machine, IsMachine, End, returned, contents, count_dirty, in_vm_range, in_shared_cache,
  prot_private_copy, prot_default,
}
use ckpt.Image.Vm.{
  Vm, Cell, Changes, Outside, IsLawful, fresh, protected, store-limits, small_mod, copied_lem,
  Permits-small,
}
use ckpt.Image.Vm.Ranges.{restored_byte}
use ckpt.Image.Format.{pages_image}
use ckpt.Image.Read.{
  Restart, fix_task_self, restore_whole, restore_pages, ckpt_vm_restore_region_pages,
}
use ckpt.Image.Read.Steps.{
  Open, Grants, HasAttributes, attributed, refreshed, refreshed_lem, map-Did, protect-Did,
  refresh_attributes-Did,
}
use ckpt.Image.Read.Memory.{readall-Did, Changes-Open}
use ckpt.Image.Read.Pages.{marked, paged, pages-Did}

limit : {c c' : Cell} → c ≡ c' → c.max_prot ≡ c'.max_prot
limit e = ap (λ (c : Cell). c.max_prot) e

module _ (V : Vm) (k : Machine) (chunk : ℕ → ℕ) where
  -- The address lies outside of mach_task_self_.
  abbrev pub Away : ℕ → Type 0
  Away x = Outside k.task_self_address (length k.task_self_bytes) x

  -- The kernel grants the restore of the region, whose attributes are proper, and the region holds
  -- mach_task_self_ all or not.
  pub record Restorable (r : Region) : Type 0 where
    pub attributes : HasAttributes r
    pub grants : Grants V k chunk r.start r.size r
    pub task_self :
        in_vm_range k.task_self_address r.start (r.start + r.size) ≡ true
        → k.task_self_address + length k.task_self_bytes ≤ r.start + r.size

  -- As `Did`, but nothing is said of mach_task_self_.
  pub record DidAway {A : Type 0} (a n : ℕ) (f : ℕ → Cell → Cell) (more : List ℕ) (x : A)
      (s : V.Space) (e : End (Restart V k chunk) A) : Type 0 where
    pub after : Restart V k chunk
    pub returns : e ≡ returned x after
    pub rest : after.rest ≡ more
    pub inside : (y : ℕ) → Away y → a ≤ y → y < a + n → V.view after.space y ≡ f y (V.view s y)
    pub outside : (y : ℕ) → Away y → Outside a n y → V.view after.space y ≡ V.view s y
    pub limits : (y : ℕ) → Outside a n y → (V.view after.space y).max_prot ≡ (V.view s y).max_prot

  -- The value of mach_task_self_ is put back, and nothing else changes.
  record Fixed (s : V.Space) (more : List ℕ) (e : End (Restart V k chunk) (Unit {0})) : Type 0 where
    after : Restart V k chunk
    returns : e ≡ returned tt after
    rest : after.rest ≡ more
    same : (y : ℕ) → Away y → V.view after.space y ≡ V.view s y
    limits : (y : ℕ) → (V.view after.space y).max_prot ≡ (V.view s y).max_prot

  -- A cell of the shared cache can be given a private copy with the protection of the region.
  abbrev pub Shares : Region → Cell → Type 0
  Shares r c =
      (bit_and prot_default (bit_or c.max_prot 2) ≡ prot_default)
      × (bit_and r.prot (bit_or c.max_prot 2) ≡ r.prot)

  module _ (laws : IsLawful V) (lawful : IsMachine k) (r : Region) (h : Restorable r)
      (m : ℕ → ℕ) where
    fix_lem :
        (w : Restart V k chunk)
        → Open V k chunk r.start r.size w.space
        → Fixed w.space w.rest (fix_task_self V k chunk r w)
    unfolding fix_task_self
    fix_lem w open_cells =
        elim (Bool-cases (in_vm_range k.task_self_address r.start (r.start + r.size))) [
          | inl held ↦
              let low : r.start ≤ k.task_self_address = ground arith in
              let (t, e) =
                h.grants.stores w.space k.task_self_address k.task_self_bytes low (h.task_self held)
                  open_cells in
              record {
                after = record w { space = t };
                returns = rw held (rw e refl);
                rest = refl;
                same = λ y away.
                    (laws.store_lem k.task_self_address k.task_self_bytes w.space t e).1 y away;
                limits = store-limits V laws k.task_self_address k.task_self_bytes w.space t e;
              }
          | inr elsewhere ↦ record {
            after = w;
            returns = rw elsewhere refl;
            rest = refl;
            same = λ y away. refl;
            limits = λ y. refl;
          }
        ]

    pub whole_lem :
        (more : List ℕ) (w : Restart V k chunk)
        → w.rest ≡ contents m r.start r.size ++ more
        → DidAway r.start r.size
            (λ x c. attributed r x (restored_byte m x c))
            more
            tt
            w.space
            (restore_whole V k chunk r w)
    unfolding restore_whole
    whole_lem more w e =
        let p1 = map-Did V k chunk laws r.start r.size r h.grants w in
        let open1 : Open V k chunk r.start r.size p1.after.space =
          λ x low high. ap (λ (c : Cell). c.prot) (p1.changes.inside x low high) in
        let p2 =
          readall-Did V k chunk laws r r.start r.size h.grants m r.start r.size more p1.after
            (omega arith) (omega arith) open1 (p1.rest ∙ e) in
        let p3 = fix_lem p2.after (
          Changes-Open V k chunk laws r r.start r.size h.grants m r.start r.size p1.after.space
            p2.after.space p2.changes open1) in
        let p4 =
          refresh_attributes-Did V k chunk laws r.start r.size r h.grants p3.after h.attributes
            (λ x low high.
              p3.limits x
              ∙ ap (λ (c : Cell). c.max_prot) (p2.changes.inside x low high)
              ∙ ap (λ (c : Cell). c.max_prot) (p1.changes.inside x low high)) in
        record {
          after = p4.after;
          returns =
              rw (p1.returns) (rw (p2.returns) (rw (==_refl r.size) (rw (p3.returns) p4.returns)));
          rest = p4.rest ∙ p3.rest ∙ p2.rest;
          inside = λ y away low high.
              p4.changes.inside y low high
              ∙ ap (refreshed r y) (
                  p3.same y away
                  ∙ p2.changes.inside y low high
                  ∙ ap (restored_byte m y) (p1.changes.inside y low high))
              ∙ refreshed_lem r y (m y) h.attributes;
          outside = λ y away o.
              p4.changes.outside y o
              ∙ p3.same y away
              ∙ p2.changes.outside y o
              ∙ p1.changes.outside y o;
          limits = λ y o.
              limit (p4.changes.outside y o)
              ∙ p3.limits y
              ∙ limit (p2.changes.outside y o)
              ∙ limit (p1.changes.outside y o);
        }

    module _ (query : ℕ → ℕ → Option (List Bool)) (v : List Bool)
        (fits : (0 + length v) * k.page_size ≤ r.size) where
      paged-Open :
          (s t : V.Space)
          → Changes V r.start r.size (paged k r.start m v 0) s t
          → Open V k chunk r.start r.size s
          → Open V k chunk r.start r.size t
      paged-Open s t h open_cells x low high =
          ap (λ (c : Cell). c.prot) (h.inside x low high) ∙ ground (arith, open_cells x low high)

      paged-limits : (y : ℕ) (c : Cell) → (paged k r.start m v 0 y c).max_prot ≡ c.max_prot
      paged-limits y c = elim (Bool-cases (marked v 0 ((y - r.start) / k.page_size))) [
        | inl saved ↦ rw saved refl
        | inr clean ↦ rw clean refl
      ]

      cached_cell :
          (y : ℕ) (c : Cell)
          → protected false r.prot (paged k r.start m v 0 y (protected false prot_private_copy c))
            ≡ record (paged k r.start m v 0 y c) { prot = r.prot; max_prot = bit_or c.max_prot 2 }
      cached_cell y c =
          let small = small_mod r.prot h.attributes.prot in
          elim (Bool-cases (marked v 0 ((y - r.start) / k.page_size))) [
            | inl saved ↦
                rw (saved, small, copied_lem r.prot (bit_or c.max_prot 2) h.attributes.prot) refl
            | inr clean ↦
                rw (clean, small, copied_lem r.prot (bit_or c.max_prot 2) h.attributes.prot) refl
          ]

      mapped_cell :
          (y : ℕ)
          → refreshed r y (paged k r.start m v 0 y fresh)
            ≡ attributed r y (paged k r.start m v 0 y fresh)
      mapped_cell y = elim (Bool-cases (marked v 0 ((y - r.start) / k.page_size))) [
        | inl saved ↦ rw saved (refreshed_lem r y (m y) h.attributes)
        | inr clean ↦ rw clean (refreshed_lem r y 0 h.attributes)
      ]

      -- In the shared cache: the protection is changed for the read, and changed back.
      pub cached_lem :
          (more : List ℕ) (w : Restart V k chunk)
          → in_shared_cache k r.start r.size ≡ true
          → ((x : ℕ) → r.start ≤ x → x < r.start + r.size → Shares r (V.view w.space x))
          → r.pages_dirtied ≡ count_dirty v
          → w.rest ≡ pages_image k query m r.start v 0 ++ more
          → DidAway r.start r.size
              (λ x c. record (paged k r.start m v 0 x c) {
                prot = r.prot;
                max_prot = bit_or c.max_prot 2;
              })
              more
              tt
              w.space
              (ckpt_vm_restore_region_pages V k chunk r w)
      unfolding ckpt_vm_restore_region_pages
      cached_lem more w cached shares dirty e =
          let p1 =
            protect-Did V k chunk laws r.start r.size r h.grants false prot_private_copy w
              (λ x low high. (shares x low high).0) in
          let open1 : Open V k chunk r.start r.size p1.after.space =
            λ x low high. ap (λ (c : Cell). c.prot) (p1.changes.inside x low high) in
          let p2 =
            pages-Did V k chunk laws lawful query r r.size h.grants m v 0 more p1.after fits open1
              (p1.rest ∙ e) in
          let counted : restore_pages V k chunk r.pages_dirtied r p1.after ≡ returned tt p2.after =
            subst (λ c. restore_pages V k chunk c r p1.after ≡ returned tt p2.after) (sym dirty)
              p2.returns in
          let p3 = fix_lem p2.after (paged-Open p1.after.space p2.after.space p2.changes open1) in
          let p4 =
            protect-Did V k chunk laws r.start r.size r h.grants false r.prot p3.after
              (λ x low high. Permits-small r.prot (V.view p3.after.space x) h.attributes.prot (
                ap (bit_and r.prot) (
                  p3.limits x
                  ∙ ap (λ (c : Cell). c.max_prot) (p2.changes.inside x low high)
                  ∙ paged-limits x (V.view p1.after.space x)
                  ∙ ap (λ (c : Cell). c.max_prot) (p1.changes.inside x low high))
                ∙ (shares x low high).1)) in
          record {
            after = p4.after;
            returns = rw cached (rw (p1.returns) (rw counted (rw (p3.returns) p4.returns)));
            rest = p4.rest ∙ p3.rest ∙ p2.rest;
            inside = λ y away low high.
                p4.changes.inside y low high
                ∙ ap (protected false r.prot) (
                    p3.same y away
                    ∙ p2.changes.inside y low high
                    ∙ ap (paged k r.start m v 0 y) (p1.changes.inside y low high))
                ∙ cached_cell y (V.view w.space y);
            outside = λ y away o.
                p4.changes.outside y o
                ∙ p3.same y away
                ∙ p2.changes.outside y o
                ∙ p1.changes.outside y o;
            limits = λ y o.
                limit (p4.changes.outside y o)
                ∙ p3.limits y
                ∙ limit (p2.changes.outside y o)
                ∙ limit (p1.changes.outside y o);
          }

      -- Elsewhere the region is mapped afresh, and a page that was not dirty is left empty.
      pub mapped_lem :
          (more : List ℕ) (w : Restart V k chunk)
          → in_shared_cache k r.start r.size ≡ false
          → r.pages_dirtied ≡ count_dirty v
          → w.rest ≡ pages_image k query m r.start v 0 ++ more
          → DidAway r.start r.size
              (λ x c. attributed r x (paged k r.start m v 0 x fresh))
              more
              tt
              w.space
              (ckpt_vm_restore_region_pages V k chunk r w)
      unfolding ckpt_vm_restore_region_pages
      mapped_lem more w mapped dirty e =
          let p1 = map-Did V k chunk laws r.start r.size r h.grants w in
          let open1 : Open V k chunk r.start r.size p1.after.space =
            λ x low high. ap (λ (c : Cell). c.prot) (p1.changes.inside x low high) in
          let p2 =
            pages-Did V k chunk laws lawful query r r.size h.grants m v 0 more p1.after fits open1
              (p1.rest ∙ e) in
          let counted : restore_pages V k chunk r.pages_dirtied r p1.after ≡ returned tt p2.after =
            subst (λ c. restore_pages V k chunk c r p1.after ≡ returned tt p2.after) (sym dirty)
              p2.returns in
          let p3 = fix_lem p2.after (paged-Open p1.after.space p2.after.space p2.changes open1) in
          let p4 =
            refresh_attributes-Did V k chunk laws r.start r.size r h.grants p3.after h.attributes
              (λ x low high.
                p3.limits x
                ∙ ap (λ (c : Cell). c.max_prot) (p2.changes.inside x low high)
                ∙ paged-limits x (V.view p1.after.space x)
                ∙ ap (λ (c : Cell). c.max_prot) (p1.changes.inside x low high)) in
          record {
            after = p4.after;
            returns = rw mapped (rw (p1.returns) (rw counted (rw (p3.returns) p4.returns)));
            rest = p4.rest ∙ p3.rest ∙ p2.rest;
            inside = λ y away low high.
                p4.changes.inside y low high
                ∙ ap (refreshed r y) (
                    p3.same y away
                    ∙ p2.changes.inside y low high
                    ∙ ap (paged k r.start m v 0 y) (p1.changes.inside y low high))
                ∙ mapped_cell y;
            outside = λ y away o.
                p4.changes.outside y o
                ∙ p3.same y away
                ∙ p2.changes.outside y o
                ∙ p1.changes.outside y o;
            limits = λ y o.
                limit (p4.changes.outside y o)
                ∙ p3.limits y
                ∙ limit (p2.changes.outside y o)
                ∙ limit (p1.changes.outside y o);
          }
