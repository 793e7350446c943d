-- ===== src/Image/Write.antt =====
-- The checkpoint of a process: writeall of xnd/util/io.c and xnd/writeckpt.c.
pub mod Laws
pub mod Regions
pub mod File
pub mod Partial
use Prim.Native.Nat.{bit_and, bit_or}
use ckpt.Prelude.{
  ℕ, zero, suc, ◌+◌, ◌-◌, ◌*◌, ◌/◌, ◌%◌, Bool, true, false, not, ◌&&◌, Option, none, some, List, [],
  ◌∷◌, ◌++◌, length, take, drop, replicate, min, ltb, leb, ◌==◌, if◌then◌else◌,
}
use ckpt.Image.Base.{
  Region, Header, Context, Codec, Machine, only_dirty_pages, cheaper, count_dirty, vm_region_entry,
  ucontext_entry, contents, End, M, returned, failed, aborted, waits, ◌>>=◌, ◌>>◌, pure, fail,
  asserted, demand, when, attempt,
}
use ckpt.Image.Vm.{Vm}

-- The bytes of a file after a write at a position.
unfoldable pub overwrite : List ℕ → ℕ → List ℕ → List ℕ
overwrite file pos bs =
    take pos file ++ (replicate (pos - length file) 0 ++ (bs ++ drop (pos + length bs) file))

-- The entries of `xnd_checkpoint`: one for each region, and one for the context.
unfoldable pub checkpoint_entries : ℕ → List ℕ
checkpoint_entries nr_regions = replicate nr_regions vm_region_entry ++ ucontext_entry ∷ []

-- `query` is mach_vm_page_range_query, with the test of VM_PAGE_QUERY_PAGE_DIRTY for each page.
module _ (V : Vm) (k : Machine) (query : ℕ → ℕ → Option (List Bool)) where
  -- A process that writes its checkpoint: the file, the position in it, the answers of the calls of
  -- write that are to come, and the address space. An answer is the number of bytes that the kernel
  -- takes, or nothing for -1.
  pub record Writer : Type 0 where
    pub file : List ℕ
    pub pos : ℕ
    pub answers : List (Option ℕ)
    pub space : V.Space

  abbrev pub W : Type 0 → Type 0
  W A = M Writer A

  abbrev pub wrote : Writer → List ℕ → List (Option ℕ) → Writer
  wrote w bs answers = record w {
    file = overwrite w.file w.pos bs;
    pos = w.pos + length bs;
    answers = answers;
  }

  -- `count` bytes were written before, and `bs` are left. A write of none goes on for ever.
  unfoldable pub write_loop : List (Option ℕ) → ℕ → List ℕ → W ℕ
  write_loop [] count bs w = waits
  write_loop (none ∷ answers) count bs w = returned count (record w { answers = answers })
  write_loop (some n ∷ answers) count bs w =
      let k = min n (length bs) in
      let rest = write_loop answers (count + k) (drop k bs) (wrote w (take k bs) answers) in
      if ltb k (length bs) then rest else returned (count + k) (wrote w (take k bs) answers)

  unfoldable pub writeall : List ℕ → W ℕ
  writeall bs w = write_loop w.answers 0 bs w

  unfoldable pub write_struct : {A : Type 0} → Codec A → A → W (Unit {0})
  write_struct c a = do bytes ← writeall (c.bytes a); demand (bytes == c.size)

  abbrev pub memory : Writer → ℕ → ℕ
  memory w a = (V.view w.space a).byte

  -- `writeall` of the memory at an address.
  unfoldable pub write_memory : ℕ → ℕ → W ℕ
  write_memory a n w = writeall (contents (memory w) a n) w

  unfoldable pub write_vm_page : Region → ℕ → W (Unit {0})
  write_vm_page r offset = do
    write_struct k.page offset
    bytes ← write_memory (r.start + offset) k.page_size
    demand (bytes == k.page_size)

  abbrev pub given : {A : Type 0} → Option A → W A
  given none = fail
  given (some a) = pure a

  -- The loop over the pages from number `idx` on; `left` pages are still to be written of `dirty`.
  -- The result is what is left.
  unfoldable pub write_dirty : Region → ℕ → List Bool → ℕ → ℕ → W ℕ
  write_dirty r dirty [] idx left = pure left
  write_dirty r dirty (d ∷ v) idx left =
      let rest = write_dirty r dirty v (suc idx) (if d then left - 1 else left) in
      if left == 0
      then (asserted (leb dirty idx) >> pure left)
      else (when d (write_vm_page r (idx * k.page_size)) >> rest)

  -- The region is left as it is written.
  unfoldable pub write_vm_region_dirty : Region → W (Unit {0})
  write_vm_region_dirty r = do
    asserted (r.size % k.page_size == 0)
    v ← given (query r.start r.size)
    asserted (length v == r.size / k.page_size)
    write_struct k.region (record r { pages_dirtied = count_dirty v })
    left ← write_dirty r (count_dirty v) v 0 (count_dirty v)
    asserted (left == 0)

  unfoldable pub tell : W ℕ
  tell w = returned w.pos w

  abbrev pub seek : ℕ → W (Unit {0})
  seek pos w = returned tt (record w { pos = pos })

  -- `lseek` to `pos - back`, which is asserted not to fail.
  unfoldable pub seek_back : ℕ → ℕ → W (Unit {0})
  seek_back pos back = asserted (leb back pos) >> seek (pos - back)

  -- The loop from page `p` on, with the pages that are left; `pos` is the variable `seek`.
  unfoldable pub write_pages : Region → ℕ → ℕ → ℕ → W ℕ
  write_pages r zero p pos = pure p
  write_pages r (suc n) p pos = do
    bytes ← write_memory (r.start + p * k.page_size) k.page_size
    let rest = write_pages r n (suc p) (pos + k.page_size)
    if bytes == k.page_size then rest else (when (not (bytes == 0)) (seek_back pos bytes) >> pure p)

  unfoldable pub write_vm_region_all_pages : Region → W ℕ
  write_vm_region_all_pages r = do pos ← tell; write_pages r (r.size / k.page_size) 0 pos

  abbrev pub granted : Writer → Option V.Space → End Writer (Unit {0})
  granted w none = failed w
  granted w (some s) = returned tt (record w { space = s })

  unfoldable pub ckpt_vm_protect : Region → Bool → ℕ → W (Unit {0})
  ckpt_vm_protect r max prot w = granted w (V.protect r.start r.size max prot w.space)

  abbrev pub read_protect : Region → Bool
  read_protect r = bit_and r.prot 1 == 0

  -- Only some pages could be written: the region is written again with their size.
  unfoldable pub rewrite_region : Region → ℕ → ℕ → W Region
  rewrite_region r before pages = do
    after ← tell
    seek before
    let r' = record r { size = pages * k.page_size }
    write_struct k.region r'
    seek after
    pure r'

  -- The end of the function, from the test of `pages` on.
  abbrev pub after_pages : Region → ℕ → ℕ → W (Unit {0})
  after_pages r before pages = do
    r' ← if pages == r.size / k.page_size then pure r else rewrite_region r before pages
    when (read_protect r) (attempt (ckpt_vm_protect r' false r'.prot))

  unfoldable pub write_whole : Region → W (Unit {0})
  write_whole r = do
    before ← tell
    write_struct k.region r
    when (read_protect r) (ckpt_vm_protect r false (bit_or r.prot 1))
    pages ← write_vm_region_all_pages r
    after_pages r before pages

  unfoldable pub write_vm_region : Region → W (Unit {0})
  write_vm_region r =
      if only_dirty_pages k r
      then if cheaper k r
        then write_vm_region_dirty (record r { dirty_only = true })
        else write_whole (record r { dirty_only = false })
      else write_whole r

  unfoldable pub write_context : Context → W (Unit {0})
  write_context u = write_struct k.context u

  abbrev pub next_region : List Region → W (List Region)
  next_region [] = asserted false >> pure []
  next_region (r ∷ rs) = write_vm_region r >> pure rs

  -- One entry: a region behind the array is undefined, and another entry ends the process. The
  -- result is the regions that follow.
  unfoldable pub write_entry : ℕ → List Region → Context → W (List Region)
  write_entry e regions u =
      if e == vm_region_entry
      then next_region regions
      else if e == ucontext_entry
      then (write_context u >> pure regions)
      else (asserted false >> pure regions)

  unfoldable pub write_entries : List ℕ → List Region → Context → W (Unit {0})
  write_entries [] regions u = pure tt
  write_entries (e ∷ es) regions u = do
    write_struct k.entry e
    rest ← write_entry e regions u
    write_entries es rest u

  -- `write_ckpt` on the file that it has created, without compression.
  unfoldable pub write_ckpt : Header → List ℕ → List Region → Context → W (Unit {0})
  write_ckpt h entries regions u = do
    write_struct k.header h
    write_entries (take h.entry_count entries) regions u

  -- `xnd_checkpoint` with the regions that are found, and the rest of the header. A failure of
  -- write_ckpt is not looked at. The walk that finds the regions has left its array already where
  -- there are more than 1023.
  unfoldable pub xnd_checkpoint : Header → List Region → Context → W (Unit {0})
  xnd_checkpoint h regions u =
      let n = length regions in
      let h' = record h { region_count = n; entry_count = n + 1 } in
      if ltb 1023 n then pure tt else attempt (write_ckpt h' (checkpoint_entries n) regions u)
