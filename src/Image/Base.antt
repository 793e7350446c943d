-- ===== src/Image/Base.antt =====
-- The structures of a checkpoint file (xnd/vm_region.h, xnd/ckptfile.h), the layout that a compiler
-- gives them, and how a function ends.
use ckpt.Prelude.{
  ℕ, zero, suc, ◌+◌, ◌*◌, ◌<◌, ◌≡◌, Bool, true, false, ◌&&◌, ◌||◌, List, [], ◌∷◌, length, ltb, leb,
  ◌==◌, if◌then◌else◌,
}

pub record Region : Type 0 where
  pub start : ℕ
  pub size : ℕ
  pub inherit : ℕ
  pub prot : ℕ
  pub max_prot : ℕ
  pub mode : ℕ
  pub tag : ℕ
  pub pages_dirtied : ℕ
  pub dirty_only : Bool

pub record SharedCacheInfo : Type 0 where
  pub base : ℕ
  pub size : ℕ
  pub uuid : ℕ

-- The magic and the uuids are the numbers of their 16 bytes.
pub record Header : Type 0 where
  pub magic : ℕ
  pub xnd_uuid : ℕ
  pub xnd_pid : ℕ
  pub xnd_ppid : ℕ
  pub xnd_pgid : ℕ
  pub pid : ℕ
  pub ppid : ℕ
  pub pgid : ℕ
  pub sid : ℕ
  pub task_self : ℕ
  pub host_self : ℕ
  pub num_peers : ℕ
  pub is_root_of_tree : ℕ
  pub entry_count : ℕ
  pub region_count : ℕ
  pub shared_cache_info : SharedCacheInfo

-- `enum xnd_ckpt_entry`, as the number that stands in a file.
abbrev pub vm_region_entry : ℕ
vm_region_entry = 0

abbrev pub vm_page_entry : ℕ
vm_page_entry = 1

abbrev pub ucontext_entry : ℕ
ucontext_entry = 2

-- A `ucontext_t`: the pointer to its machine context, and the rest as the number of its bytes.
pub record Context : Type 0 where
  pub uc_mcontext : ℕ
  pub registers : ℕ

-- How a structure lies in memory: `sizeof`, its bytes, and the structure that bytes are.
pub record Codec (A : Type 0) : Type 0 where
  pub size : ℕ
  pub bytes : A → List ℕ
  pub value : List ℕ → A

pub record IsCodec {A : Type 0} (c : Codec A) : Type 0 where
  pub positive : 0 < c.size
  pub sized : (a : A) → length (c.bytes a) ≡ c.size
  pub value-bytes : (a : A) → c.value (c.bytes a) ≡ a

-- The machine: the page size, the layouts, the variable mach_task_self_ with the bytes that
-- task_self_trap gives it after a restart, where the context is read to, the range of the shared
-- cache (SHARED_REGION_BASE_ARM64 and SHARED_REGION_SIZE_ARM64), and the tags of memory for malloc
-- with up to large sizes; and XND_HEADER_MAGIC.
pub record Machine : Type 0 where
  pub page_size : ℕ
  pub region : Codec Region
  pub page : Codec ℕ
  pub entry : Codec ℕ
  pub context : Codec Context
  pub header : Codec Header
  pub task_self_address : ℕ
  pub task_self_bytes : List ℕ
  pub mcontext_data : ℕ
  pub cache_base : ℕ
  pub cache_size : ℕ
  pub malloc_tags : List ℕ
  pub magic : ℕ

pub record IsMachine (k : Machine) : Type 0 where
  pub paged : 0 < k.page_size
  pub region : IsCodec k.region
  pub page : IsCodec k.page
  pub entry : IsCodec k.entry
  pub context : IsCodec k.context
  pub header : IsCodec k.header

abbrev pub member : ℕ → List ℕ → Bool
member x [] = false
member x (y ∷ ys) = x == y || member x ys

-- `DYLD_SHARED_CACHE_REGION`
abbrev pub in_shared_cache : Machine → ℕ → ℕ → Bool
in_shared_cache k addr size =
    leb k.cache_base addr && ltb (addr + size) (k.cache_base + k.cache_size)

-- `ONLY_SAVE_DIRTY_PAGES`, which is `ONLY_RESTORE_DIRTY_PAGES`
unfoldable pub only_dirty_pages : Machine → Region → Bool
only_dirty_pages k r = in_shared_cache k r.start r.size || member r.tag k.malloc_tags

abbrev pub count_dirty : List Bool → ℕ
count_dirty [] = 0
count_dirty (true ∷ v) = suc (count_dirty v)
count_dirty (false ∷ v) = count_dirty v

-- Saving dirty pages only makes the file smaller.
abbrev pub cheaper : Machine → Region → Bool
cheaper k r = ltb (r.pages_dirtied * (k.page.size + k.page_size)) (r.size + k.region.size)

-- `IN_VM_RANGE`
abbrev pub in_vm_range : ℕ → ℕ → ℕ → Bool
in_vm_range ptr start end = leb start ptr && ltb ptr end

abbrev pub prot_default : ℕ
prot_default = 3

abbrev pub prot_all : ℕ
prot_all = 7

abbrev pub inherit_default : ℕ
inherit_default = 1

-- `VM_PROT_READ | VM_PROT_WRITE | VM_PROT_COPY`
abbrev pub prot_private_copy : ℕ
prot_private_copy = 19

-- The bytes of memory from an address on.
abbrev pub contents : (ℕ → ℕ) → ℕ → ℕ → List ℕ
contents m a zero = []
contents m a (suc n) = m a ∷ contents m (suc a) n

-- How a function ends that acts on the state `W`: it returns, or returns -1, or an assertion fails
-- or C leaves the step undefined, or it goes on for longer than there are answers of the world.
pub data End (W A : Type 0) : Type 0 where
  returned : A → W → End W A
  failed : W → End W A
  aborted : End W A
  waits : End W A

abbrev pub M : Type 0 → Type 0 → Type 0
M W A = W → End W A

module _ {W A B : Type 0} where
  abbrev pub and_then : End W A → (A → M W B) → End W B
  and_then (returned a w) f = f a w
  and_then (failed w) f = failed w
  and_then aborted f = aborted
  and_then waits f = waits

  infixl 5 ◌>>=◌ ◌>>◌
  abbrev pub ◌>>=◌ : M W A → (A → M W B) → M W B
  m >>= f = λ w. and_then (m w) f

  abbrev pub ◌>>◌ : M W A → M W B → M W B
  m >> f = m >>= λ _. f

module _ {W : Type 0} where
  abbrev pub pure : {A : Type 0} → A → M W A
  pure = returned

  abbrev pub fail : {A : Type 0} → M W A
  fail = failed

  abbrev pub asserted : Bool → M W (Unit {0})
  asserted b w = if b then returned tt w else aborted

  abbrev pub demand : Bool → M W (Unit {0})
  demand b w = if b then returned tt w else failed w

  abbrev pub when : Bool → M W (Unit {0}) → M W (Unit {0})
  when true m = m
  when false m = returned tt

  -- The function is called, and what it returns is not looked at.
  abbrev pub settle : End W (Unit {0}) → End W (Unit {0})
  settle (returned a w) = returned a w
  settle (failed w) = returned tt w
  settle aborted = aborted
  settle waits = waits

  abbrev pub attempt : M W (Unit {0}) → M W (Unit {0})
  attempt m w = settle (m w)
