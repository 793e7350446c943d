-- ===== src/Image/Format.antt =====
-- The contents of a checkpoint file, described by themselves: the header, an entry with its region
-- for each region, and the entry of the context.
use ckpt.Prelude.{
  ℕ, suc, ◌+◌, ◌*◌, Bool, true, false, ◌&&◌, Option, none, some, List, [], ◌∷◌, ◌++◌, length,
  if◌then◌else◌,
}
use ckpt.Image.Base.{
  Region, Header, Context, Machine, only_dirty_pages, cheaper, count_dirty, vm_region_entry,
  ucontext_entry, contents,
}

module _ (k : Machine) (query : ℕ → ℕ → Option (List Bool)) where
  -- Which pages of a region are dirty.
  abbrev pub flags : Option (List Bool) → List Bool
  flags none = []
  flags (some v) = v

  abbrev pub dirty : Region → List Bool
  dirty r = flags (query r.start r.size)

  -- Only the dirty pages of the region are saved.
  unfoldable pub by_pages : Region → Bool
  by_pages r = only_dirty_pages k r && cheaper k r

  -- The region as it stands in the file.
  unfoldable pub as_saved : Region → Region
  as_saved r =
      if only_dirty_pages k r
      then if cheaper k r
        then record r { dirty_only = true; pages_dirtied = count_dirty (dirty r) }
        else record r { dirty_only = false }
      else r

  -- The dirty pages from number `idx` on, each with its offset.
  unfoldable pub pages_image : (ℕ → ℕ) → ℕ → List Bool → ℕ → List ℕ
  pages_image m start [] idx = []
  pages_image m start (true ∷ v) idx =
      (k.page.bytes (idx * k.page_size) ++ contents m (start + idx * k.page_size) k.page_size)
      ++ pages_image m start v (suc idx)
  pages_image m start (false ∷ v) idx = pages_image m start v (suc idx)

  unfoldable pub memory_image : (ℕ → ℕ) → Region → List ℕ
  memory_image m r =
      if by_pages r then pages_image m r.start (dirty r) 0 else contents m r.start r.size

  unfoldable pub region_image : (ℕ → ℕ) → Region → List ℕ
  region_image m r = k.region.bytes (as_saved r) ++ memory_image m r

  unfoldable pub entries_image : (ℕ → ℕ) → List Region → Context → List ℕ
  entries_image m [] u = k.entry.bytes ucontext_entry ++ k.context.bytes u
  entries_image m (r ∷ rs) u =
      k.entry.bytes vm_region_entry ++ (region_image m r ++ entries_image m rs u)

  unfoldable pub image : (ℕ → ℕ) → Header → List Region → Context → List ℕ
  image m h regions u =
      let n = length regions in
      k.header.bytes (record h { region_count = n; entry_count = n + 1 })
      ++ entries_image m regions u
