-- ===== src/Image/Scan/Tests.antt =====
-- Tests of the walks over the regions.
use ckpt.Prelude.{
  List, arith, ℕ, ◌+◌, ◌≡◌, ◌≢◌, refl, Bool, true, false, Option, none, some, [], ◌∷◌, All, ◌==◌,
  if◌then◌else◌,
}
use ckpt.Image.Scan.{
  Entry, Info, Kernel, ended, ckpt_vm_valid_region, ckpt_vm_save_regions, ckpt_vm_mark_regions,
}
use ckpt.Image.Scan.Walk.{
  Tells, nothing, submap, region, here, IsDecided, AllDescribe, valid_entries, IsSteady,
  save_regions-eq, mark_regions_spins,
}
use ckpt.Image.Samples.{sample_machine}
use ckpt.Image.Base.{Region}

abbrev info : Bool → ℕ → ℕ → Info
info sub max_protection tag = record {
  is_submap = sub;
  inheritance = 1;
  behavior = 0;
  protection = 3;
  max_protection = max_protection;
  share_mode = 1;
  user_tag = tag;
  pages_resident = 1;
  pages_dirtied = 1;
}

abbrev base : ℕ
base = 8589934592

abbrev entry : ℕ → ℕ → Info → Entry
entry addr depth i = record { addr = addr; size = 16; depth = depth; info = i }

-- A guard, a submap with a region of malloc in it, and nothing more.
abbrev guard : Entry
guard = entry base 0 (info false 0 1)

abbrev shared : Entry
shared = entry (base + 16) 0 (info true 7 1)

abbrev arena : Entry
arena = entry (base + 16) 1 (info false 7 2)

abbrev kernel : Kernel
kernel = record {
  saved_tags = 1 ∷ 2 ∷ [];
  dyld_tags = 60 ∷ [];
  skipped_tags = 31 ∷ [];
  inherit_none = 2;
  behavior_rseqntl = 2;
  restart_range = none;
}

abbrev recurse : ℕ → ℕ → Option Entry
recurse addr depth =
    if addr == 0
    then some guard
    else if addr == base + 16
    then if depth == 0 then some shared else some arena
    else none

told : Tells recurse 0 0 (guard ∷ arena ∷ [])
told = region 0 0 guard (arena ∷ []) refl refl (
    submap (base + 16) 0 shared (arena ∷ []) refl refl
      (region (base + 16) 1 arena [] refl refl (nothing (base + 32) 1 refl)))

decided : All (IsDecided sample_machine kernel false) (guard ∷ arena ∷ [])
unfolding ckpt_vm_valid_region
decided = ((λ e. cc), ((λ e. cc), tt))

save_regions-eq_example :
    (fuel : ℕ) × (rs : List Region) × (ckpt_vm_save_regions sample_machine kernel false recurse fuel
      ≡ ended rs)
    × AllDescribe sample_machine kernel false
        (valid_entries sample_machine kernel false (guard ∷ arena ∷ []))
        rs
unfolding valid_entries ckpt_vm_valid_region
save_regions-eq_example =
    save_regions-eq sample_machine kernel false recurse (guard ∷ arena ∷ []) told decided
      (omega arith)

-- One submap for every address, behind the address 0.
abbrev beyond : ℕ → ℕ → Option Entry
beyond addr depth = some shared

beyond-IsSteady : IsSteady beyond
beyond-IsSteady addr depth e told = told

abbrev granted : ℕ → ℕ → Bool
granted addr size = true

mark_regions_spins_example :
    ckpt_vm_mark_regions sample_machine granted granted beyond 100 ≢ ended []
mark_regions_spins_example =
    mark_regions_spins sample_machine granted granted beyond beyond-IsSteady
      (here 0 0 shared refl refl) 100 []
