-- ===== src/Pid/Table.antt =====
-- The virtual id table of xnd/virtual_id_table.h, the functions of xnd/pid/pid_table_common.cpp
-- over it, and its upkeep after a restart and a fork in xnd/pid/pid_table.cpp. The hash map is the
-- list of its entries in the order in which it would be walked. That order is the map's own
-- affair, so nothing is assumed of it. A pid is its 32-bit pattern.
pub mod Laws
pub mod Restart
pub mod Tests
use ckpt.Prelude.{
  ℕ, ◌≡◌, Bool, true, false, ◌&&◌, ◌||◌, not, Option, none, some, List, [], ◌∷◌, ◌++◌, ◌==◌,
  if◌then◌else◌, length, minus_one,
}

abbrev pub Entries : Type 0
Entries = List (ℕ × ℕ)

unfoldable pub reset : Entries → Entries
reset table = []

-- `table[virt] = real`
unfoldable pub update : Entries → ℕ → ℕ → Entries
update [] virt real = (virt, real) ∷ []
update ((v, r) ∷ table) virt real =
    let rest = update table virt real in if v == virt then (virt, real) ∷ table else (v, r) ∷ rest

unfoldable pub erase : Entries → ℕ → Entries
erase [] virt = []
erase ((v, r) ∷ table) virt =
    let rest = erase table virt in if v == virt then rest else (v, r) ∷ rest

unfoldable pub size : Entries → ℕ
size table = length table

unfoldable pub virtual_id_exists : Entries → ℕ → Bool
virtual_id_exists [] virt = false
virtual_id_exists ((v, r) ∷ table) virt = v == virt || virtual_id_exists table virt

unfoldable pub real_id_exists : Entries → ℕ → Bool
real_id_exists [] real = false
real_id_exists ((v, r) ∷ table) real =
    let rest = real_id_exists table real in if r == real then true else rest

-- The overloads that answer by a reference parameter: `none` is `false`.
unfoldable pub virtual_to_real : Entries → ℕ → Option ℕ
virtual_to_real [] virt = none
virtual_to_real ((v, r) ∷ table) virt =
    let rest = virtual_to_real table virt in if v == virt then some r else rest

unfoldable pub real_to_virtual : Entries → ℕ → Option ℕ
real_to_virtual [] real = none
real_to_virtual ((v, r) ∷ table) real =
    let rest = real_to_virtual table real in if r == real then some v else rest

abbrev pub or_minus_one : Option ℕ → ℕ
or_minus_one none = minus_one
or_minus_one (some id) = id

unfoldable pub pid_table_virtual_to_real : Entries → ℕ → ℕ
pid_table_virtual_to_real table virt = or_minus_one (virtual_to_real table virt)

unfoldable pub pid_table_real_to_virtual : Entries → ℕ → ℕ
pid_table_real_to_virtual table real = or_minus_one (real_to_virtual table real)

-- The globals `_virt_pid`, `_real_pid`, `_virt_ppid` and `_real_ppid`.
pub record PidInfo : Type 0 where
  pub virt_pid : ℕ
  pub real_pid : ℕ
  pub virt_ppid : ℕ
  pub real_ppid : ℕ

abbrev pub known : PidInfo → Bool
known info = not (info.virt_pid == minus_one) && not (info.virt_ppid == minus_one)

-- `none` is a failed assertion. `pid` and `ppid` are what the kernel answers.
unfoldable pub pid_table_init_pid_info :
    (pid ppid : ℕ) → PidInfo → Entries → Option (PidInfo × Entries)
pid_table_init_pid_info pid ppid info table =
    if known info
    then some (
      record info { real_pid = pid; real_ppid = ppid },
      update (update table info.virt_pid pid) info.virt_ppid ppid,
    )
    else none

-- One round of the loop over the table: the table and the ids to erase. `ask` is what the
-- coordinator answers to a virtual pid.
refresh : (ask : ℕ → ℕ) → PidInfo → ℕ → Entries × List ℕ → Entries × List ℕ
refresh ask info virt (table, erased) =
    if virt == info.virt_pid || virt == info.virt_ppid
    then (table, erased)
    else if ask virt == minus_one
    then (table, erased ++ (virt ∷ []))
    else (update table virt (ask virt), erased)

-- The loop changes the values of entries only, so the keys that it meets are those at its start.
refresh_all : (ask : ℕ → ℕ) → PidInfo → Entries → Entries × List ℕ → Entries × List ℕ
refresh_all ask info [] state = state
refresh_all ask info ((virt, _) ∷ rest) state =
    refresh_all ask info rest (refresh ask info virt state)

erase_all : List ℕ → Entries → Entries
erase_all [] table = table
erase_all (virt ∷ rest) table = erase_all rest (erase table virt)

unfoldable pub pid_table_postrestart :
    (pid ppid : ℕ) (ask : ℕ → ℕ) → PidInfo → Entries → Option (PidInfo × Entries)
unfolding refresh refresh_all erase_all
pid_table_postrestart pid ppid ask info table =
    let info' = record info { real_pid = pid; real_ppid = ppid } in
    let start = update (update table info.virt_pid pid) info.virt_ppid ppid in
    let (fresh, erased) = refresh_all ask info' start (start, []) in
    if known info then some (info', erase_all erased fresh) else none

-- `info` already holds the virtual ids of the child, from its handshake.
unfoldable pub pid_table_atfork_child :
    (pid ppid : ℕ) → PidInfo → Entries → Option (PidInfo × Entries)
pid_table_atfork_child pid ppid info table =
    let table' = update table info.virt_pid pid in
    if pid_table_virtual_to_real table' info.virt_ppid == ppid
    then some (record info { real_pid = pid; real_ppid = ppid }, table')
    else none
