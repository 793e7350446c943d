-- ===== src/Image/Read/Cells.antt =====
-- What a restart makes of the memory of one region, of ckpt.Image.Read.
use Prim.Native.Nat.{bit_or}
use ckpt.Prelude.{
  ℕ, ◌+◌, ◌*◌, ◌≤◌, ◌<◌, ◌≡◌, inl, inr, refl, sym, ◌∙◌, Bool, true, false, Option, List, ◌++◌,
  length, if◌then◌else◌, Bool-cases,
}
use ckpt.Image.Base.{
  Region, Machine, IsMachine, End, contents, count_dirty, in_shared_cache, only_dirty_pages,
  cheaper,
}
use ckpt.Image.Vm.{Vm, Cell, IsLawful, fresh}
use ckpt.Image.Vm.Ranges.{restored_byte}
use ckpt.Image.Format.{dirty, by_pages, as_saved, pages_image, memory_image}
use ckpt.Image.Read.{Restart, ckpt_vm_restore_region}
use ckpt.Image.Read.Steps.{attributed}
use ckpt.Image.Read.Pages.{paged}
use ckpt.Image.Read.Regions.{Restorable, Shares, DidAway, whole_lem, cached_lem, mapped_lem}

-- What a restart makes of a cell of a region: it has its byte of the checkpoint and the attributes of
-- the region. Where only dirty pages are saved, a clean page is empty, but in the shared cache it is
-- what it was: the protection is put back, and the private copy adds the right to write to the
-- maximum.
pub restored_cell :
    (k : Machine) → (ℕ → ℕ → Option (List Bool)) → (ℕ → ℕ) → Region → ℕ → Cell → Cell
restored_cell k query m r x c =
    if by_pages k query r
    then if in_shared_cache k r.start r.size
      then record (paged k r.start m (dirty k query r) 0 x c) {
        prot = r.prot;
        max_prot = bit_or c.max_prot 2;
      }
      else attributed r x (paged k r.start m (dirty k query r) 0 x fresh)
    else attributed r x (restored_byte m x c)

module _ (k : Machine) (query : ℕ → ℕ → Option (List Bool)) (m : ℕ → ℕ) (r : Region) (x : ℕ)
    (c : Cell) where
  cached_cell :
      only_dirty_pages k r ≡ true
      → cheaper k r ≡ true
      → in_shared_cache k r.start r.size ≡ true
      → restored_cell k query m r x c ≡ record (paged k r.start m (dirty k query r) 0 x c) {
        prot = r.prot;
        max_prot = bit_or c.max_prot 2;
      }
  unfolding restored_cell by_pages
  cached_cell only pages cached = rw (only, pages, cached) refl

  mapped_cell :
      only_dirty_pages k r ≡ true
      → cheaper k r ≡ true
      → in_shared_cache k r.start r.size ≡ false
      → restored_cell k query m r x c
        ≡ attributed r x (paged k r.start m (dirty k query r) 0 x fresh)
  unfolding restored_cell by_pages
  mapped_cell only pages mapped = rw (only, pages, mapped) refl

  whole_cell :
      by_pages k query r ≡ false
      → restored_cell k query m r x c ≡ attributed r x (restored_byte m x c)
  unfolding restored_cell
  whole_cell whole = rw whole refl

only_saved :
    (k : Machine) (r : Region) (d : Bool) (n : ℕ)
    → only_dirty_pages k (record r { dirty_only = d; pages_dirtied = n }) ≡ only_dirty_pages k r
unfolding only_dirty_pages
only_saved k r d n = refl

module _ (V : Vm) (k : Machine) (chunk : ℕ → ℕ) (laws : IsLawful V) (lawful : IsMachine k)
    (query : ℕ → ℕ → Option (List Bool)) (m : ℕ → ℕ) where
  same-Restorable :
      (r : Region) (d : Bool) (n : ℕ)
      → Restorable V k chunk r
      → Restorable V k chunk (record r { dirty_only = d; pages_dirtied = n })
  same-Restorable r d n h = record {
    attributes = record {
      prot = h.attributes.prot;
      max_prot = h.attributes.max_prot;
      within = h.attributes.within;
    };
    grants = record {
      maps = h.grants.maps;
      protects = h.grants.protects;
      inherits = h.grants.inherits;
      stores = h.grants.stores;
    };
    task_self = h.task_self;
  }

  DidAway-eq :
      {A : Type 0} (a n : ℕ) (f g : ℕ → Cell → Cell) (more : List ℕ) (x : A) (s : V.Space)
      (e : End (Restart V k chunk) A)
      → ((y : ℕ) (c : Cell) → f y c ≡ g y c)
      → DidAway V k chunk a n f more x s e
      → DidAway V k chunk a n g more x s e
  DidAway-eq a n f g more x s e same p = record {
    after = p.after;
    returns = p.returns;
    rest = p.rest;
    inside = λ y away low high. p.inside y away low high ∙ same y (V.view s y);
    outside = p.outside;
    limits = p.limits;
  }

  pub restore_lem :
      (r : Region) (more : List ℕ) (w : Restart V k chunk)
      → Restorable V k chunk r
      → (0 + length (dirty k query r)) * k.page_size ≤ r.size
      → (by_pages k query r ≡ true
          → in_shared_cache k r.start r.size ≡ true
          → (x : ℕ) → r.start ≤ x
          → x < r.start + r.size
          → Shares V k chunk r (V.view w.space x))
      → w.rest ≡ memory_image k query m r ++ more
      → DidAway V k chunk r.start r.size
          (restored_cell k query m r)
          more
          tt
          w.space
          (ckpt_vm_restore_region V k chunk (as_saved k query r) w)
  unfolding ckpt_vm_restore_region as_saved memory_image by_pages
  restore_lem r more w h fits shares e = elim (Bool-cases (only_dirty_pages k r)) [
    | inl only ↦ elim (Bool-cases (cheaper k r)) [
      | inl pages ↦
          let n : ℕ = count_dirty (dirty k query r) in
          let e' : w.rest ≡ pages_image k query m r.start (dirty k query r) 0 ++ more =
            rw (only, pages) at e in
          let h' = same-Restorable r true n h in
          let r' = record r { dirty_only = true; pages_dirtied = n } in
          elim (Bool-cases (in_shared_cache k r.start r.size)) [
            | inl cached ↦
                rw (only, pages, only_saved k r true n, only)
                  (DidAway-eq r.start r.size _ _ more tt w.space _
                    (λ y x. sym (cached_cell k query m r y x only pages cached))
                    (cached_lem V k chunk laws lawful r' h' m query (dirty k query r) fits more w
                      cached (shares (rw (by_pages, only, pages) refl) cached) refl e'))
            | inr mapped ↦
                rw (only, pages, only_saved k r true n, only)
                  (DidAway-eq r.start r.size _ _ more tt w.space _
                    (λ y x. sym (mapped_cell k query m r y x only pages mapped))
                    (mapped_lem V k chunk laws lawful r' h' m query (dirty k query r) fits more w
                      mapped refl e'))
          ]
      | inr all ↦
          let e' : w.rest ≡ contents m r.start r.size ++ more = rw (only, all) at e in
          let h' = same-Restorable r false r.pages_dirtied h in
          let r' = record r { dirty_only = false } in
          rw (only, all, only_saved k r false r.pages_dirtied, only)
            (DidAway-eq r.start r.size _ _ more tt w.space _
              (λ y x. sym (whole_cell k query m r y x (rw (by_pages, only, all) refl)))
              (whole_lem V k chunk laws lawful r' h' m more w e'))
    ]
    | inr whole ↦
        let e' : w.rest ≡ contents m r.start r.size ++ more = rw whole at e in
        rw (whole, whole)
          (DidAway-eq r.start r.size _ _ more tt w.space _
            (λ y x. sym (whole_cell k query m r y x (rw (by_pages, whole) refl)))
            (whole_lem V k chunk laws lawful r h m more w e'))
  ]
