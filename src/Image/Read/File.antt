-- ===== src/Image/Read/File.antt =====
-- The restart of a process from a whole file, of ckpt.Image.Read.
use Prim.Native.Nat.{bit_and, bit_or}
use ckpt.Prelude.{
  ℕ, suc, ◌+◌, ◌*◌, ◌≤◌, ◌<◌, ◌≡◌, ◌⊎◌, inl, inr, refl, sym, subst, true, ap, ap₂, ◌∙◌, Bool,
  Option, some, none, List, [], ◌∷◌, ◌++◌, map, All, All-map, All-map₂, length, ==_iff, arith,
}
use mathlib.Core.List.{append_assoc, append-nil}
use ckpt.Image.Base.{
  Region, Header, Context, Machine, IsMachine, End, returned, vm_region_entry, ucontext_entry,
  in_shared_cache, prot_default,
}
use ckpt.Image.Vm.{Vm, Outside, IsLawful}
use ckpt.Image.Format.{by_pages, dirty, as_saved, memory_image, region_image, entries_image, image}
use ckpt.Image.Read.{
  Restart, Found, read_vm_region, read_context, read_entry, read_entries, read_ckpt, restart,
}
use ckpt.Image.Read.Loop.{read_struct_lem}
use ckpt.Image.Read.Regions.{Away, Restorable, DidAway, Shares}
use ckpt.Image.Scan.{Walked, is_over}
use ckpt.Image.Read.Cells.{restored_cell, restore_lem}
use ckpt.Image.Write.{checkpoint_entries}

-- The address is one of the region.
abbrev pub Within : Region → ℕ → Type 0
Within r x = (r.start ≤ x) × (x < r.start + r.size)

abbrev pub Beyond : Region → ℕ → Type 0
Beyond r x = Outside r.start r.size x

abbrev pub Apart : Region → Region → Type 0
Apart r r' = (r.start + r.size ≤ r'.start) ⊎ (r'.start + r'.size ≤ r.start)

-- No two regions share an address.
abbrev pub AllApart : List Region → Type 0
AllApart [] = Unit {0}
AllApart (r ∷ rs) = All (Apart r) rs × AllApart rs

Apart-Beyond : (r r' : Region) (x : ℕ) → Apart r r' → Within r' x → Beyond r x
Apart-Beyond r r' x (inl a) h = inr (omega (arith, h.0))
Apart-Beyond r r' x (inr a) h = inl (omega (arith, h.1))

Apart-Beyond' : (r r' : Region) (x : ℕ) → Apart r r' → Within r x → Beyond r' x
Apart-Beyond' r r' x (inl a) h = inl (omega (arith, h.1))
Apart-Beyond' r r' x (inr a) h = inr (omega (arith, h.0))

module _ (V : Vm) (k : Machine) (chunk : ℕ → ℕ) where
  abbrev pub nothing_found : Found V k chunk
  nothing_found = record { entries = []; regions = []; context = none }

module _ (V : Vm) (k : Machine) (chunk : ℕ → ℕ) (query : ℕ → ℕ → Option (List Bool))
    (m : ℕ → ℕ) where
  -- The restart of the regions is granted, and the kernel told of at most as many pages as there are.
  pub record Ready (r : Region) : Type 0 where
    pub restorable : Restorable V k chunk r
    pub fits : (0 + length (dirty k query r)) * k.page_size ≤ r.size

  -- The cells of a region whose dirty pages go to the shared cache can be given private copies.
  abbrev pub SharesAll : V.Space → Region → Type 0
  SharesAll s r =
      by_pages k query r ≡ true
      → in_shared_cache k r.start r.size ≡ true
      → (x : ℕ) → r.start ≤ x
      → x < r.start + r.size
      → Shares V k chunk r (V.view s x)

  -- Every cell of a region is restored, and every other is as it was; but mach_task_self_ is left
  -- out.
  pub record Restored (regions : List Region) (s t : V.Space) : Type 0 where
    pub inside :
        All
          (λ r.
            (x : ℕ)
            → Away V k chunk x
            → Within r x
            → V.view t x ≡ restored_cell k query m r x (V.view s x))
          regions
    pub outside :
        (x : ℕ) → Away V k chunk x → All (λ r. Beyond r x) regions → V.view t x ≡ V.view s x

  -- The context, with the pointer into the restarting process.
  abbrev pub rebased : Context → Context
  rebased u = record u { uc_mcontext = k.mcontext_data }

  -- What the loop over the entries has found at its end.
  abbrev pub found : Found V k chunk → List Region → Context → Found V k chunk
  found f regions u = record {
    entries = f.entries ++ checkpoint_entries (length regions);
    regions = f.regions ++ map (as_saved k query) regions;
    context = some (rebased u);
  }

  pub record Ends (f : Found V k chunk) (regions : List Region) (u : Context) (s : V.Space)
      (e : End (Restart V k chunk) (Found V k chunk)) : Type 0 where
    pub after : Restart V k chunk
    pub returns : e ≡ returned (found f regions u) after
    pub restored : Restored regions s after.space

module _ (V : Vm) (k : Machine) (chunk : ℕ → ℕ) (laws : IsLawful V) (lawful : IsMachine k)
    (query : ℕ → ℕ → Option (List Bool)) (m : ℕ → ℕ) where
  region_lem :
      (r : Region) (more : List ℕ) (w : Restart V k chunk)
      → Ready V k chunk query m r
      → SharesAll V k chunk query m w.space r
      → w.rest ≡ region_image k query m r ++ more
      → DidAway V k chunk r.start r.size
          (restored_cell k query m r)
          more
          (as_saved k query r)
          w.space
          (read_vm_region V k chunk w)
  unfolding read_vm_region region_image
  region_lem r more w h shares e =
      let first =
        read_struct_lem V k chunk k.region (as_saved k query r) (memory_image k query m r ++ more) w
          lawful.region (e ∙ append_assoc _ _ more) in
      let p =
        restore_lem V k chunk laws lawful query m r more
          (record w { rest = memory_image k query m r ++ more }) h.restorable h.fits shares refl in
      record {
        after = p.after;
        returns = rw first (rw (p.returns) refl);
        rest = p.rest;
        inside = p.inside;
        outside = p.outside;
        limits = p.limits;
      }

  -- The restore of a region leaves the maximal protections of the others.
  shares_kept :
      (r : Region) (rs : List Region) (s t : V.Space)
      → All (Apart r) rs
      → ((x : ℕ) → Beyond r x → (V.view t x).max_prot ≡ (V.view s x).max_prot)
      → All (SharesAll V k chunk query m s) rs
      → All (SharesAll V k chunk query m t) rs
  shares_kept r rs s t apart limits shares =
      All-map₂ (Apart r) _ _ rs
        (λ r' a f pages cached x low high.
          subst
            (λ p.
              (bit_and prot_default (bit_or p 2) ≡ prot_default)
              × (bit_and r'.prot (bit_or p 2) ≡ r'.prot))
            (sym (limits x (Apart-Beyond r r' x a (low, high)))) (f pages cached x low high))
        apart shares

  Restored-cons :
      (r : Region) (rs : List Region) (s t u : V.Space)
      → All (Apart r) rs
      → ((x : ℕ)
          → Away V k chunk x
          → r.start ≤ x
          → x < r.start + r.size
          → V.view t x ≡ restored_cell k query m r x (V.view s x))
      → ((x : ℕ) → Away V k chunk x → Beyond r x → V.view t x ≡ V.view s x)
      → Restored V k chunk query m rs t u
      → Restored V k chunk query m (r ∷ rs) s u
  Restored-cons r rs s t u apart inside outside h = record {
    inside = (
      λ x away within.
          h.outside x away
            (All-map (Apart r) (λ r'. Beyond r' x) rs (λ r' a. Apart-Beyond' r r' x a within) apart)
          ∙ inside x away within.0 within.1,
      All-map₂ (Apart r) _ _ rs
          (λ r' a f x away within.
            f x away within
            ∙ ap (restored_cell k query m r' x) (outside x away (Apart-Beyond r r' x a within)))
          apart h.inside,
    );
    outside = λ x away o. h.outside x away o.1 ∙ outside x away o.0;
  }

  found-cons :
      (f : Found V k chunk) (r : Region) (rs : List Region) (u : Context)
      → found V k chunk query m
          (record {
            entries = f.entries ++ vm_region_entry ∷ [];
            regions = f.regions ++ as_saved k query r ∷ [];
            context = f.context;
          })
          rs
          u
        ≡ found V k chunk query m f (r ∷ rs) u
  unfolding checkpoint_entries
  found-cons f r rs u =
      let build : List ℕ → List Region → Found V k chunk = λ es l. record {
        entries = es;
        regions = l;
        context = some (rebased V k chunk query m u);
      } in
      ap₂ build (append_assoc f.entries (vm_region_entry ∷ []) (checkpoint_entries (length rs)))
        (append_assoc f.regions (as_saved k query r ∷ []) (map (as_saved k query) rs))

  entries_lem :
      (u : Context) (regions : List Region) (f : Found V k chunk) (w : Restart V k chunk)
      → All (Ready V k chunk query m) regions
      → AllApart regions
      → All (SharesAll V k chunk query m w.space) regions
      → w.rest ≡ entries_image k query m regions u
      → Ends V k chunk query m f regions u w.space
          (read_entries V k chunk (suc (length regions)) f w)
  unfolding read_entries read_entry read_context entries_image checkpoint_entries
  entries_lem u [] f w ready apart shares e =
      let first =
        read_struct_lem V k chunk k.entry ucontext_entry (k.context.bytes u) w lawful.entry e in
      let second =
        read_struct_lem V k chunk k.context u [] (record w { rest = k.context.bytes u })
          lawful.context (sym (append-nil _)) in
      record {
        after = record w { rest = [] };
        returns = rw first (rw second (rw (append-nil f.regions) refl));
        restored = record { inside = tt; outside = λ x away o. refl };
      }
  entries_lem u (r ∷ rs) f w ready apart shares e =
      let others = region_image k query m r ++ entries_image k query m rs u in
      let first = read_struct_lem V k chunk k.entry vm_region_entry others w lawful.entry e in
      let p =
        region_lem r (entries_image k query m rs u) (record w { rest = others }) ready.0 shares.0
          refl in
      let f' : Found V k chunk = record {
        entries = f.entries ++ vm_region_entry ∷ [];
        regions = f.regions ++ as_saved k query r ∷ [];
        context = f.context;
      } in
      let q =
        entries_lem u rs f' p.after ready.1 apart.1
          (shares_kept r rs w.space p.after.space apart.0 p.limits shares.1) p.rest in
      record {
        after = q.after;
        returns =
            rw first
              (rw (p.returns) (q.returns ∙ ap (λ g. returned g q.after) (found-cons f r rs u)));
        restored =
            Restored-cons r rs w.space p.after.space q.after.space apart.0 p.inside p.outside
              q.restored;
      }

  pub restart_lem :
      (marks : Walked (ℕ × ℕ)) (h : Header) (regions : List Region) (u : Context)
      (w : Restart V k chunk)
      → is_over marks ≡ true
      → h.magic ≡ k.magic
      → All (Ready V k chunk query m) regions
      → AllApart regions
      → All (SharesAll V k chunk query m w.space) regions
      → w.rest ≡ image k query m h regions u
      → Ends V k chunk query m
          (nothing_found V k chunk)
          regions
          u
          w.space
          (restart V k chunk marks w)
  unfolding restart read_ckpt image
  restart_lem marks h regions u w over magic ready apart shares e =
      let n : ℕ = length regions in
      let h' = record h { region_count = n; entry_count = n + 1 } in
      let body = entries_image k query m regions u in
      let first = read_struct_lem V k chunk k.header h' body w lawful.header e in
      let p =
        entries_lem u regions (nothing_found V k chunk) (record w { rest = body }) ready apart
          shares refl in
      let count : n + 1 ≡ suc n = omega arith in
      record {
        after = p.after;
        returns =
            rw (over, first)
              (rw ((==_iff _ _).1 magic) (
                ap
                  (λ c.
                    read_entries V k chunk c (nothing_found V k chunk) (record w { rest = body }))
                  count
                ∙ p.returns));
        restored = p.restored;
      }
