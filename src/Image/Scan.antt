-- ===== src/Image/Scan.antt =====
-- The walks over the regions of a process: xnd/vm_checkpoint.c, and of xnd/vm_restore.c
-- ckpt_vm_mark_regions and ckpt_vm_find_ubc_region.
pub mod Walk
pub mod Flat
mod Tests
use Prim.Native.Nat.{bit_and}
use ckpt.Prelude.{
  ℕ, zero, suc, ◌+◌, Bool, true, false, not, ◌&&◌, ◌||◌, Option, none, some, List, [], ◌∷◌, ◌++◌,
  leb, ltb, length, ◌==◌, if◌then◌else◌,
}
use ckpt.Image.Base.{Region, Machine, member, in_shared_cache}

-- What the kernel tells of a region.
pub record Info : Type 0 where
  pub is_submap : Bool
  pub inheritance : ℕ
  pub behavior : ℕ
  pub protection : ℕ
  pub max_protection : ℕ
  pub share_mode : ℕ
  pub user_tag : ℕ
  pub pages_resident : ℕ
  pub pages_dirtied : ℕ

-- The answer of mach_vm_region_recurse.
pub record Entry : Type 0 where
  pub addr : ℕ
  pub size : ℕ
  pub depth : ℕ
  pub info : Info

-- The tags of <mach/vm_statistics.h>: those whose regions `ckpt_vm_valid_region` saves (of malloc,
-- stacks, dylibs and once-only allocations), those of dyld, and those that it skips; the values of
-- VM_INHERIT_NONE and VM_BEHAVIOR_RSEQNTL; and XND_RESTART_BASE and XND_RESTART_END, where the build
-- defines them.
pub record Kernel : Type 0 where
  pub saved_tags : List ℕ
  pub dyld_tags : List ℕ
  pub skipped_tags : List ℕ
  pub inherit_none : ℕ
  pub behavior_rseqntl : ℕ
  pub restart_range : Option (ℕ × ℕ)

abbrev pub pagezero_end : ℕ
pagezero_end = 4294967296

-- `PAGEZERO`
abbrev pub pagezero : ℕ → ℕ → Bool
pagezero addr size = ltb (addr + size) pagezero_end

-- XND_CKPT_VM_REGION_MAX
abbrev pub region_max : ℕ
region_max = 1023

abbrev pub restart_stack_tag : ℕ
restart_stack_tag = 240

-- `VM_KERN_MEMORY_UBC`
abbrev pub ubc_tag : ℕ
ubc_tag = 22

module _ (k : Machine) (c : Kernel) where
  abbrev pub in_restart_range : Option (ℕ × ℕ) → ℕ → ℕ → Bool
  in_restart_range none addr size = false
  in_restart_range (some (base, end)) addr size = leb base addr && ltb (addr + size) end

  -- `RESTART_REGION`
  abbrev pub restart_region : Info → ℕ → ℕ → Bool
  restart_region i addr size =
      in_restart_range c.restart_range addr size
      || (i.inheritance == c.inherit_none && i.behavior == c.behavior_rseqntl)
      || i.user_tag == restart_stack_tag

  -- The case of the tags of dyld, whose assertion may fail.
  abbrev pub valid_dyld : Info → Option Bool
  valid_dyld i =
      if not (i.pages_resident == 0) && not (i.pages_dirtied == 0)
      then if bit_and i.max_protection 2 == 0 then none else some true
      else some false

  -- `none` is a failed assertion.
  unfoldable pub ckpt_vm_valid_region : Info → ℕ → ℕ → Option Bool
  ckpt_vm_valid_region i addr size =
      if pagezero addr size || restart_region i addr size || i.max_protection == 0
      then some false
      else if in_shared_cache k addr size
      then some (not (i.pages_dirtied == 0))
      else if member i.user_tag c.saved_tags
      then some true
      else if member i.user_tag c.dyld_tags
      then valid_dyld i
      else if member i.user_tag c.skipped_tags
      then some false
      else if i.user_tag == ubc_tag
      then some (not (leb (k.cache_base + k.cache_size) addr))
      else some true

  abbrev pub found_region : Entry → Bool → Region
  found_region e dirty_only = record {
    start = e.addr;
    size = e.size;
    inherit = e.info.inheritance;
    prot = e.info.protection;
    max_prot = e.info.max_protection;
    mode = e.info.share_mode;
    tag = e.info.user_tag;
    pages_dirtied = e.info.pages_dirtied;
    dirty_only = dirty_only;
  }

-- One round of a walk: it ends, an assertion fails, it has its result, or it goes on at an address
-- and a depth, with what is kept.
pub data Round (A : Type 0) : Type 0 where
  stop : Round A
  abort : Round A
  result : A → Round A
  go : ℕ → ℕ → Option A → Round A

-- `overrun`: a result is stored behind the end of the array.
pub data Walked (A : Type 0) : Type 0 where
  ended : List A → Walked A
  aborted : Walked A
  waits : Walked A
  overrun : Walked A

-- The walk has ended, with or without an error.
abbrev pub is_over : {A : Type 0} → Walked A → Bool
is_over waits = false
is_over _ = true

module _ {A : Type 0} where
  abbrev pub keep : List A → Option A → List A
  keep l none = l
  keep l (some a) = l ++ a ∷ []

  -- The array that results are stored in may have a number of places.
  abbrev pub is_full : Option ℕ → List A → Option A → Bool
  is_full none l a = false
  is_full (some room) l none = false
  is_full (some room) l (some a) = leb room (length l)

  abbrev pub follow : Option ℕ → (ℕ → ℕ → List A → Walked A) → List A → Round A → Walked A
  follow room f l stop = ended l
  follow room f l abort = aborted
  follow room f l (result a) = ended (l ++ a ∷ [])
  follow room f l (go addr depth a) = if is_full room l a then overrun else f addr depth (keep l a)

  -- The loop `for (;;)` of a walk, whose calls of the kernel `recurse` answers.
  unfoldable pub walk :
      Option ℕ → (ℕ → ℕ → Option Entry) → (Entry → Round A) → ℕ → ℕ → ℕ → List A → Walked A
  walk room recurse round zero addr depth l = waits
  walk room recurse round (suc fuel) addr depth l =
      follow room (walk room recurse round fuel) l
        (elim (recurse addr depth) [ none ↦ stop | some e ↦ round e ])

module _ (k : Machine) (c : Kernel) (raw : Bool) where
  abbrev pub save_valid : Entry → Option Bool → Round Region
  save_valid e none = abort
  save_valid e (some true) = go (e.addr + e.size) e.depth (some (found_region k c e raw))
  save_valid e (some false) = go (e.addr + e.size) e.depth none

  -- A round of `ckpt_vm_save_regions`; `raw` is the field dirty_only, which it does not set.
  unfoldable pub save_round : Entry → Round Region
  save_round e =
      if e.info.is_submap
      then go e.addr (e.depth + 1) none
      else save_valid e (ckpt_vm_valid_region k c e.info e.addr e.size)

  -- The array is that of `xnd_checkpoint`.
  unfoldable pub ckpt_vm_save_regions : (ℕ → ℕ → Option Entry) → ℕ → Walked Region
  ckpt_vm_save_regions recurse fuel = walk (some region_max) recurse save_round fuel 0 0 []

module _ (k : Machine) (inherit behavior : ℕ → ℕ → Bool) where
  -- `ckpt_vm_mark`, by the answers of the kernel for a range.
  abbrev pub ckpt_vm_mark : ℕ → ℕ → Bool
  ckpt_vm_mark addr size = inherit addr size && behavior addr size

  -- A round of `ckpt_vm_mark_regions`, which keeps the ranges that are marked; a failure of
  -- ckpt_vm_mark ends it like a failed assertion.
  unfoldable pub mark_round : Entry → Round (ℕ × ℕ)
  mark_round e =
      if e.info.is_submap
      then go e.addr e.depth none
      else if pagezero e.addr e.size || in_shared_cache k e.addr e.size
      then go (e.addr + e.size) e.depth none
      else if ckpt_vm_mark e.addr e.size
      then go (e.addr + e.size) e.depth (some (e.addr, e.size))
      else abort

  unfoldable pub ckpt_vm_mark_regions : (ℕ → ℕ → Option Entry) → ℕ → Walked (ℕ × ℕ)
  ckpt_vm_mark_regions recurse fuel = walk none recurse mark_round fuel 0 0 []

-- A round of `ckpt_vm_find_ubc_region`, whose result is the address and the size.
unfoldable pub ubc_round : Entry → Round (ℕ × ℕ)
ubc_round e =
    if e.info.is_submap
    then go e.addr e.depth none
    else if e.info.user_tag == ubc_tag
    then result (e.addr, e.size)
    else go (e.addr + e.size) e.depth none

unfoldable pub ckpt_vm_find_ubc_region : (ℕ → ℕ → Option Entry) → ℕ → Walked (ℕ × ℕ)
ckpt_vm_find_ubc_region recurse fuel = walk none recurse ubc_round fuel 0 0 []
