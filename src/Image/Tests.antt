-- ===== src/Image/Tests.antt =====
-- Tests of the checkpoint image, and its theorems at a process of four regions: one that holds
-- mach_task_self_, one of malloc and one of the shared cache with a dirty page each, and one that
-- cannot be read.
use Prim.Native.Nat.{bit_and, bit_or}
use ckpt.Prelude.{
  ℕ, zero, suc, ◌+◌, ◌*◌, ◌/◌, ◌%◌, ◌≡◌, ◌≤◌, ◌<◌, refl, Bool, true, false, Option, none, some,
  List, [], ◌∷◌, ◌++◌, length, replicate, All, ◌==◌, arith, if◌then◌else◌,
}
use ckpt.Image.Base.{Region, Context, contents, only_dirty_pages, returned}
use ckpt.Image.Vm.{Cell}
use ckpt.Image.Format.{
  dirty, image, entries_image, region_image, memory_image, pages_image, as_saved, by_pages,
}
use ckpt.Image.Read.Steps.{HasAttributes}
use ckpt.Image.Read.File.{Ready}
use ckpt.Image.Write.{Writer, memory, write_pages, xnd_checkpoint}
use ckpt.Image.Write.Laws.{Takes}
use ckpt.Image.Write.Regions.{Writable}
use ckpt.Image.Write.Partial.{partial_page_misplaced}
use ckpt.Image.Scan.{Entry, Info}
use ckpt.Image.Scan.Flat.{Flat}
use ckpt.Image.Vm.{small-bits}
use ckpt.Image.RoundTrip.{limits, checkpoint_image}
use ckpt.Image.Samples.{sample_machine, sample_machine_lawful, sample_header}
use ckpt.Image.SampleVm.{sample_vm-Protects, sample_vm, sample_vm-IsLawful}

abbrev region : ℕ → ℕ → ℕ → ℕ → ℕ → Region
region start size prot tag dirty = record {
  start = start;
  size = size;
  inherit = 2;
  prot = prot;
  max_prot = 7;
  mode = 0;
  tag = tag;
  pages_dirtied = dirty;
  dirty_only = false;
}

abbrev code : Region
code = region 10 4 5 1 0

abbrev heap : Region
heap = region 20 4 3 2 1

abbrev cached : Region
cached = region 110 4 1 1 1

abbrev hidden : Region
hidden = region 30 2 0 1 0

abbrev regions : List Region
regions = code ∷ heap ∷ cached ∷ hidden ∷ []

abbrev query : ℕ → ℕ → Option (List Bool)
query start size =
    if start == 110
    then some (false ∷ true ∷ [])
    else if start == 30
    then some (true ∷ [])
    else some (true ∷ false ∷ [])

abbrev context : Context
context = record { uc_mcontext = 5; registers = 6 }

abbrev old_cells : ℕ → Cell
old_cells x = record { byte = x + 1; prot = 3; max_prot = 7; inherit = 1 }

abbrev new_cells : ℕ → Cell
new_cells x = record { byte = 50; prot = 1; max_prot = 5; inherit = 0 }

abbrev writer : Writer sample_vm sample_machine query
writer = record { file = []; pos = 0; answers = replicate 100 (some 3); space = old_cells }

answers_take : (n : ℕ) → All Takes (replicate n (some 3))
answers_take zero = tt
answers_take (suc n) = (omega arith, answers_take n)

abbrev IsWritable : Region → Type 0
IsWritable r =
    Writable sample_vm sample_machine query sample_machine_lawful
      (limits sample_vm sample_machine query writer) (memory sample_vm sample_machine query writer)
      r

sample-IsWritable :
    (r : Region) (v : List Bool)
    → r.size % 2 ≡ 0
    → query r.start r.size ≡ some v
    → length v ≡ r.size / 2
    → r.prot < 8
    → IsWritable r
sample-IsWritable r v pages answered complete small = record {
  pages = pages;
  flags = v;
  answered = answered;
  complete = complete;
  proper = small;
  within = λ x low high. (small-bits r.prot small).2;
  readable = λ e x low high. (small-bits (bit_or r.prot 1) (small-bits r.prot small).0).2;
  protects = sample_vm-Protects r.start r.size;
}

all-IsWritable : All IsWritable regions
all-IsWritable =
    let a = sample-IsWritable code (true ∷ false ∷ []) refl refl refl (omega arith) in
    let b = sample-IsWritable heap (true ∷ false ∷ []) refl refl refl (omega arith) in
    let c = sample-IsWritable cached (false ∷ true ∷ []) refl refl refl (omega arith) in
    let d = sample-IsWritable hidden (true ∷ []) refl refl refl (omega arith) in
    (a, (b, (c, (d, tt))))

abbrev chunk : ℕ → ℕ
chunk n = n % 3

abbrev IsReady : Region → Type 0
IsReady r =
    Ready sample_vm sample_machine chunk query (memory sample_vm sample_machine query writer) r

proper :
    (r : Region)
    → r.prot < 8
    → r.max_prot < 8
    → bit_and r.prot r.max_prot ≡ r.prot
    → HasAttributes r
proper r p m e = record { prot = p; max_prot = m; within = e }

enough :
    length (
      image sample_machine query
        (memory sample_vm sample_machine query writer)
        sample_header
        regions
        context)
    ≤ length writer.answers
unfolding image entries_image region_image memory_image pages_image as_saved by_pages
    only_dirty_pages
enough = omega arith

few : length regions ≤ 1023
few = omega arith

checkpoint_image_example :
    (w' : Writer sample_vm sample_machine query) × (xnd_checkpoint sample_vm sample_machine query
        sample_header regions context writer
      ≡ returned tt w')
    × (w'.file
        ≡ image sample_machine query
            (memory sample_vm sample_machine query writer)
            sample_header
            regions
            context)
    × ((x : ℕ)
        → memory sample_vm sample_machine query w' x
          ≡ memory sample_vm sample_machine query writer x)
checkpoint_image_example =
    checkpoint_image sample_vm sample_machine query sample_vm-IsLawful sample_machine_lawful context
      sample_header regions few writer refl refl (answers_take 100) enough all-IsWritable

-- The restart finds one region, and no submap.
abbrev stack : Info
stack = record {
  is_submap = false;
  inheritance = 1;
  behavior = 0;
  protection = 3;
  max_protection = 7;
  share_mode = 1;
  user_tag = 30;
  pages_resident = 1;
  pages_dirtied = 1;
}

abbrev recurse : ℕ → ℕ → Option Entry
recurse addr depth =
    if addr == 0 then some (record { addr = 0; size = 64; depth = 0; info = stack }) else none

abbrev granted : ℕ → ℕ → Bool
granted addr size = true

-- A file of five bytes.
abbrev behind : Writer sample_vm sample_machine query
behind = record {
  file = 1 ∷ 2 ∷ 3 ∷ 4 ∷ 5 ∷ [];
  pos = 5;
  answers = some 1 ∷ none ∷ [];
  space = old_cells;
}

partial_page_misplaced_example :
    (w' : Writer sample_vm sample_machine query) × (write_pages sample_vm sample_machine query code
        1 1 5 behind
      ≡ returned 1 w')
    × (w'.file
        ≡ behind.file
          ++ contents (memory sample_vm sample_machine query behind) (code.start + 1 * 2) 1)
    × (w'.pos + 1 ≡ length behind.file)
partial_page_misplaced_example =
    partial_page_misplaced sample_vm sample_machine query code 0 1 1 [] behind (omega arith)
      (omega arith) (omega arith) refl refl
