-- ===== src/Pid/Table/Tests.antt =====
-- The theorems of the pid table (xnd/virtual_id_table.h, xnd/pid/pid_table.cpp) at a concrete one.
use ckpt.Prelude.{ℕ, ◌≡◌, refl, some, [], ◌∷◌, ◌==◌, if◌then◌else◌, minus_one}
use ckpt.Pid.Table.{Entries, PidInfo, virtual_to_real, pid_table_postrestart}
use ckpt.Pid.Table.Restart.{restarted, postrestart_lookup}

abbrev before : Entries
before = (2, 700) ∷ (1, 600) ∷ (3, 701) ∷ (4, 702) ∷ []

abbrev info : PidInfo
info = record { virt_pid = 2; real_pid = 700; virt_ppid = 1; real_ppid = 600 }

-- After the restart the coordinator knows 3, and 4 no more.
abbrev ask : ℕ → ℕ
ask virt = if virt == 3 then 801 else minus_one

postrestart_lookup_example :
    (table' : Entries) × (pid_table_postrestart 800 650 ask info before
      ≡ some (record info { real_pid = 800; real_ppid = 650 }, table'))
    × ((k : ℕ) → virtual_to_real table' k ≡ restarted 800 650 ask info before k)
postrestart_lookup_example = postrestart_lookup 800 650 ask info before refl
