-- ===== src/Image/Read.antt =====
-- The restart of a process from its image: sys_readall of xnd/syscall.h, xnd/vm_restore.c,
-- xnd/vm_common.c, xnd/readckpt.c and restart of xnd/xnd_restart_internal.c.
pub mod Loop
pub mod Steps
pub mod Memory
pub mod Pages
pub mod Regions
pub mod Cells
pub mod File
use ckpt.Prelude.{
  ℕ, zero, suc, ◌+◌, ◌-◌, ◌*◌, Bool, true, false, not, ◌&&◌, Option, none, some, List, [], ◌∷◌,
  ◌++◌, length, take, drop, min, ltb, leb, ◌==◌, if◌then◌else◌,
}
use ckpt.Image.Base.{
  Region, Header, Context, Codec, Machine, in_shared_cache, only_dirty_pages, in_vm_range,
  vm_region_entry, ucontext_entry, prot_default, prot_all, inherit_default, prot_private_copy, End,
  M, returned, failed, aborted, waits, ◌>>=◌, ◌>>◌, pure, fail, asserted, demand, when, attempt,
}
use ckpt.Image.Vm.{Vm}
use ckpt.Image.Scan.{Walked, is_over}

-- A loop of reads: the bytes read so far, what is left of the file, where they are put, and whether
-- errno is EFAULT.
pub record Reading (T : Type 0) : Type 0 where
  pub count : ℕ
  pub rest : List ℕ
  pub target : T
  pub faulted : Bool

-- What one call of read transfers of the `n` bytes asked for: 0 at the end of the file, and
-- otherwise at least one byte, as the kernel chooses.
abbrev pub transferred : (ℕ → ℕ) → ℕ → List ℕ → ℕ
transferred chunk n rest = min (suc (chunk (length rest))) (min n (length rest))

module _ {T : Type 0} (store : ℕ → List ℕ → T → Option T) (chunk : ℕ → ℕ) where
  -- A read of `k` bytes; it is repeated while bytes are missing.
  abbrev pub received : ℕ → ℕ → Reading T → Option T → Reading T × Bool
  received n k r none = (record r { faulted = true }, false)
  received n k r (some t) =
      (record r { count = r.count + k; rest = drop k r.rest; target = t }, ltb (r.count + k) n)

  abbrev pub read_once : ℕ → ℕ → Reading T → Reading T × Bool
  read_once a n r =
      let k = transferred chunk (n - r.count) r.rest in
      if k == 0 then (r, false) else received n k r (store (a + r.count) (take k r.rest) r.target)

  abbrev pub again : (Reading T → Reading T) → Reading T × Bool → Reading T
  again f (r, true) = f r
  again f (r, false) = r

  -- Each round that is followed by another reads a byte, so `n` rounds are enough.
  unfoldable pub read_loop : ℕ → ℕ → ℕ → Reading T → Reading T
  read_loop zero a n r = r
  read_loop (suc fuel) a n r = again (read_loop fuel a n) (read_once a n r)

module _ (V : Vm) (k : Machine) (chunk : ℕ → ℕ) where
  -- A process that restarts: what is left of the file, the address space, and whether errno is
  -- EFAULT.
  pub record Restart : Type 0 where
    pub rest : List ℕ
    pub space : V.Space
    pub faulted : Bool

  abbrev pub R : Type 0 → Type 0
  R A = M Restart A

  -- `sys_readall` into the memory at an address.
  unfoldable pub sys_readall : ℕ → ℕ → R ℕ
  sys_readall a n w =
      let start : Reading V.Space = record {
        count = 0;
        rest = w.rest;
        target = w.space;
        faulted = w.faulted;
      } in
      let r = read_loop V.store chunk (suc n) a n start in
      returned r.count (record { rest = r.rest; space = r.target; faulted = r.faulted })

  abbrev pub append_bytes : ℕ → List ℕ → List ℕ → Option (List ℕ)
  append_bytes a bs buffer = some (buffer ++ bs)

  -- `sys_readall` into a structure on the stack of the restart, and the test of its result.
  unfoldable pub read_struct : {A : Type 0} → Codec A → R A
  read_struct c w =
      let start : Reading (List ℕ) = record {
        count = 0;
        rest = w.rest;
        target = [];
        faulted = w.faulted;
      } in
      let r = read_loop append_bytes chunk (suc c.size) 0 c.size start in
      if r.count == c.size
      then returned (c.value r.target) (record w { rest = r.rest; faulted = r.faulted })
      else failed (record w { rest = r.rest; faulted = r.faulted })

  abbrev pub granted : Restart → Option V.Space → End Restart (Unit {0})
  granted w none = failed w
  granted w (some s) = returned tt (record w { space = s })

  abbrev pub mapped : ℕ → Restart → Option (ℕ × V.Space) → End Restart (Unit {0})
  mapped a w none = failed w
  mapped a w (some (b, s)) = if a == b then returned tt (record w { space = s }) else aborted

  -- `ckpt_vm_map_region` and `ckpt_vm_map_page`: `mach_vm_map` with the assertion on its result.
  unfoldable pub vm_map : ℕ → ℕ → ℕ → Bool → R (Unit {0})
  vm_map a n tag over w = mapped a w (V.map a n tag over w.space)

  unfoldable pub vm_protect : ℕ → ℕ → Bool → ℕ → R (Unit {0})
  vm_protect a n max prot w = granted w (V.protect a n max prot w.space)

  unfoldable pub vm_inherit : ℕ → ℕ → ℕ → R (Unit {0})
  vm_inherit a n inherit w = granted w (V.inherit a n inherit w.space)

  abbrev pub ckpt_vm_protect : Region → Bool → ℕ → R (Unit {0})
  ckpt_vm_protect r max prot = vm_protect r.start r.size max prot

  abbrev pub ckpt_vm_map_region : Region → R (Unit {0})
  ckpt_vm_map_region r = vm_map r.start r.size r.tag true

  abbrev pub ckpt_vm_map_page : Region → ℕ → R (Unit {0})
  ckpt_vm_map_page r offset = vm_map (r.start + offset) k.page_size r.tag false

  -- The three calls of `ckpt_vm_refresh_region` and `ckpt_vm_refresh_page`, on their ranges.
  unfoldable pub refresh_attributes : ℕ → ℕ → Region → R (Unit {0})
  refresh_attributes a n r = do
    when (not (r.prot == prot_default)) (vm_protect a n false r.prot)
    when (not (r.max_prot == prot_all)) (vm_protect a n true r.max_prot)
    when (not (r.inherit == inherit_default)) (vm_inherit a n r.inherit)

  abbrev pub ckpt_vm_refresh_region : Region → R (Unit {0})
  ckpt_vm_refresh_region r = refresh_attributes r.start r.size r

  abbrev pub ckpt_vm_refresh_page : Region → ℕ → R (Unit {0})
  ckpt_vm_refresh_page r offset = refresh_attributes (r.start + offset) k.page_size r

  -- `errno != EFAULT` ends the restore.
  abbrev pub demand_fault : R (Unit {0})
  demand_fault w = demand w.faulted w

  -- The page could not be stored: it is mapped and read again.
  unfoldable pub page_retry : Region → ℕ → ℕ → R (Unit {0})
  page_retry r offset got = do
    demand_fault
    asserted (got == 0)
    ckpt_vm_map_page r offset
    bytes ← sys_readall (r.start + offset) k.page_size
    demand (bytes == k.page_size)
    attempt (ckpt_vm_refresh_page r offset)

  unfoldable pub ckpt_vm_page_restore : Region → ℕ → R (Unit {0})
  ckpt_vm_page_restore r offset = do
    bytes ← sys_readall (r.start + offset) k.page_size
    if bytes == k.page_size then pure tt else page_retry r offset bytes

  -- The rounds of `ckpt_vm_restore_pages` that are left.
  unfoldable pub restore_pages : ℕ → Region → R (Unit {0})
  restore_pages zero r = pure tt
  restore_pages (suc n) r = do
    offset ← read_struct k.page
    ckpt_vm_page_restore r offset
    restore_pages n r

  abbrev pub ckpt_vm_restore_pages : Region → R (Unit {0})
  ckpt_vm_restore_pages r = restore_pages r.pages_dirtied r

  -- An assignment: a page that cannot be written ends the process.
  abbrev pub assigned : Restart → Option V.Space → End Restart (Unit {0})
  assigned w none = aborted
  assigned w (some s) = returned tt (record w { space = s })

  abbrev pub set_task_self : R (Unit {0})
  set_task_self w = assigned w (V.store k.task_self_address k.task_self_bytes w.space)

  -- mach_task_self_ gets its value back where the region held it.
  unfoldable pub fix_task_self : Region → R (Unit {0})
  fix_task_self r = when (in_vm_range k.task_self_address r.start (r.start + r.size)) set_task_self

  abbrev pub is_cached : Region → Bool
  is_cached r = in_shared_cache k r.start r.size

  unfoldable pub ckpt_vm_restore_region_pages : Region → R (Unit {0})
  ckpt_vm_restore_region_pages r = do
    if is_cached r then ckpt_vm_protect r false prot_private_copy else ckpt_vm_map_region r
    ckpt_vm_restore_pages r
    fix_task_self r
    if is_cached r then ckpt_vm_protect r false r.prot else ckpt_vm_refresh_region r

  unfoldable pub restore_whole : Region → R (Unit {0})
  restore_whole r = do
    ckpt_vm_map_region r
    bytes ← sys_readall r.start r.size
    demand (bytes == r.size)
    fix_task_self r
    ckpt_vm_refresh_region r

  unfoldable pub ckpt_vm_restore_region : Region → R (Unit {0})
  ckpt_vm_restore_region r =
      if only_dirty_pages k r && r.dirty_only
      then ckpt_vm_restore_region_pages r
      else restore_whole r

  unfoldable pub read_vm_region : R Region
  read_vm_region = do r ← read_struct k.region; ckpt_vm_restore_region r; pure r

  unfoldable pub read_context : R Context
  read_context = do u ← read_struct k.context; pure (record u { uc_mcontext = k.mcontext_data })

  -- The arrays that `read_ckpt` fills.
  pub record Found : Type 0 where
    pub entries : List ℕ
    pub regions : List Region
    pub context : Option Context

  abbrev pub add_region : Found → Region → Found
  add_region f r = record f { regions = f.regions ++ r ∷ [] }

  abbrev pub set_context : Found → Context → Found
  set_context f u = record f { context = some u }

  unfoldable pub read_entry : Found → ℕ → R Found
  read_entry f e =
      let f' = record f { entries = f.entries ++ e ∷ [] } in
      if e == vm_region_entry
      then (read_vm_region >>= λ r. pure (add_region f' r))
      else if e == ucontext_entry
      then (read_context >>= λ u. pure (set_context f' u))
      else fail

  -- The loop of `read_ckpt` with the rounds that are left.
  unfoldable pub read_entries : ℕ → Found → R Found
  read_entries zero f = pure f
  read_entries (suc n) f = do e ← read_struct k.entry; f' ← read_entry f e; read_entries n f'

  unfoldable pub read_ckpt : Header → R Found
  read_ckpt h = read_entries h.entry_count (record { entries = []; regions = []; context = none })

  -- `restart` from the read of the header on, up to the call of xnd_setcontext with the context found.
  abbrev pub restart_image : R Found
  restart_image = do h ← read_struct k.header; demand (h.magic == k.magic); read_ckpt h

  abbrev pub unending : R Found
  unending w = waits

  -- `restart`. `marks` is what the walk of ckpt_vm_mark_regions comes to, whose failure is only
  -- reported; the address space is as the marks leave it.
  unfoldable pub restart : Walked (ℕ × ℕ) → R Found
  restart marks w = if is_over marks then restart_image w else unending w
