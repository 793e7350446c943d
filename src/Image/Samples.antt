-- ===== src/Image/Samples.antt =====
-- A machine and an address space for the tests of the checkpoint image: each field of a structure is
-- one byte, a page has two, and the kernel grants everything.
use ckpt.Prelude.{ℕ, ◌≡◌, refl, ap, Bool, true, false, List, [], ◌∷◌, ◌==◌, arith}
use ckpt.Image.Base.{Region, Header, Context, Codec, IsCodec, Machine, IsMachine}

abbrev bit : Bool → ℕ
bit true = 1
bit false = 0

abbrev region_bytes : Region → List ℕ
region_bytes r =
    r.start
    ∷ r.size
    ∷ r.inherit
    ∷ r.prot
    ∷ r.max_prot
    ∷ r.mode
    ∷ r.tag
    ∷ r.pages_dirtied
    ∷ bit r.dirty_only
    ∷ []

abbrev no_region : Region
no_region = record {
  start = 0;
  size = 0;
  inherit = 0;
  prot = 0;
  max_prot = 0;
  mode = 0;
  tag = 0;
  pages_dirtied = 0;
  dirty_only = false;
}

abbrev region_value : List ℕ → Region
region_value (a ∷ b ∷ c ∷ d ∷ e ∷ f ∷ g ∷ h ∷ i ∷ []) = record {
  start = a;
  size = b;
  inherit = c;
  prot = d;
  max_prot = e;
  mode = f;
  tag = g;
  pages_dirtied = h;
  dirty_only = i == 1;
}
region_value _ = no_region

abbrev region_codec : Codec Region
region_codec = record { size = 9; bytes = region_bytes; value = region_value }

bit_back : (b : Bool) → (bit b == 1) ≡ b
bit_back true = refl
bit_back false = refl

region_codec_lawful : IsCodec region_codec
region_codec_lawful = record {
  positive = omega arith;
  sized = λ r. refl;
  value-bytes = λ r. ap (λ b. record r { dirty_only = b }) (bit_back r.dirty_only);
}

abbrev number_value : List ℕ → ℕ
number_value (n ∷ []) = n
number_value _ = 0

abbrev number_codec : Codec ℕ
number_codec = record { size = 1; bytes = λ n. n ∷ []; value = number_value }

number_codec_lawful : IsCodec number_codec
number_codec_lawful = record { positive = omega arith; sized = λ n. refl; value-bytes = λ n. refl }

abbrev context_value : List ℕ → Context
context_value (p ∷ r ∷ []) = record { uc_mcontext = p; registers = r }
context_value _ = record { uc_mcontext = 0; registers = 0 }

abbrev context_codec : Codec Context
context_codec = record {
  size = 2;
  bytes = λ u. u.uc_mcontext ∷ u.registers ∷ [];
  value = context_value;
}

context_codec_lawful : IsCodec context_codec
context_codec_lawful = record { positive = omega arith; sized = λ n. refl; value-bytes = λ n. refl }

abbrev header_bytes : Header → List ℕ
header_bytes h =
    h.magic ∷ h.xnd_uuid ∷ h.xnd_pid ∷ h.xnd_ppid ∷ h.xnd_pgid ∷ h.pid ∷ h.ppid ∷ h.pgid ∷ h.sid
    ∷ h.task_self ∷ h.host_self ∷ h.num_peers ∷ h.is_root_of_tree ∷ h.entry_count ∷ h.region_count
    ∷ h.shared_cache_info.base ∷ h.shared_cache_info.size ∷ h.shared_cache_info.uuid ∷ []

abbrev pub sample_header : Header
sample_header = record {
  magic = 7;
  xnd_uuid = 1;
  xnd_pid = 1;
  xnd_ppid = 0;
  xnd_pgid = 0;
  pid = 100;
  ppid = 1;
  pgid = 100;
  sid = 1;
  task_self = 3;
  host_self = 4;
  num_peers = 1;
  is_root_of_tree = 1;
  entry_count = 0;
  region_count = 0;
  shared_cache_info = record { base = 0; size = 0; uuid = 0 };
}

abbrev header_value : List ℕ → Header
header_value (a ∷ b ∷ c ∷ d ∷ e ∷ f ∷ g ∷ h ∷ i ∷ j ∷ k ∷ l ∷ m ∷ n ∷ o ∷ p ∷ q ∷ r ∷ []) = record {
  magic = a;
  xnd_uuid = b;
  xnd_pid = c;
  xnd_ppid = d;
  xnd_pgid = e;
  pid = f;
  ppid = g;
  pgid = h;
  sid = i;
  task_self = j;
  host_self = k;
  num_peers = l;
  is_root_of_tree = m;
  entry_count = n;
  region_count = o;
  shared_cache_info = record { base = p; size = q; uuid = r };
}
header_value _ = sample_header

abbrev header_codec : Codec Header
header_codec = record { size = 18; bytes = header_bytes; value = header_value }

header_codec_lawful : IsCodec header_codec
header_codec_lawful = record { positive = omega arith; sized = λ h. refl; value-bytes = λ h. refl }

abbrev pub sample_machine : Machine
sample_machine = record {
  page_size = 2;
  region = region_codec;
  page = number_codec;
  entry = number_codec;
  context = context_codec;
  header = header_codec;
  task_self_address = 12;
  task_self_bytes = 9 ∷ [];
  mcontext_data = 77;
  cache_base = 100;
  cache_size = 50;
  malloc_tags = 2 ∷ [];
  magic = 7;
}

pub sample_machine_lawful : IsMachine sample_machine
sample_machine_lawful = record {
  paged = omega arith;
  region = region_codec_lawful;
  page = number_codec_lawful;
  entry = number_codec_lawful;
  context = context_codec_lawful;
  header = header_codec_lawful;
}
