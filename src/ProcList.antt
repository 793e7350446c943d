-- ===== src/ProcList.antt =====
-- The process list of xnd/coordinator/proc_list.c and proc_list.h as the sequence of its
-- processes, head first. A node that a function is handed is one that a search of the same list
-- has just returned, so it is named by what it was searched for.
pub mod Laws
use ckpt.Prelude.{
  ℕ, suc, ◌+◌, ◌-◌, ◌≡◌, refl, ap, ◌∙◌, sym, Bool, true, false, not, Option, none, some, List, [],
  ◌∷◌, ◌++◌, ◌==◌, if◌then◌else◌, minus_one,
}

pub data ProcState : Type 0 where
  running recv_ckpt_request ready_for_ckpt ckpt_in_progress ckpt_complete restart_in_progress
        exited :
      ProcState

-- The value of the enumeration's constant.
abbrev pub state_code : ProcState → ℕ
state_code running = 0
state_code recv_ckpt_request = 1
state_code ready_for_ckpt = 2
state_code ckpt_in_progress = 3
state_code ckpt_complete = 4
state_code restart_in_progress = 5
state_code exited = 6

abbrev pub same_state : ProcState → ProcState → Bool
same_state a b = state_code a == state_code b

-- `cleanup` is not a field: the coordinator always sets it to `proc_exit_callback`. The links are
-- the order of the list.
pub record Proc : Type 0 where
  pub fd : ℕ
  pub oob_fd : ℕ
  pub xnd_pid : ℕ
  pub xnd_ppid : ℕ
  pub xnd_pgid : ℕ
  pub virt_pid : ℕ
  pub real_pid : ℕ
  pub virt_ppid : ℕ
  pub real_ppid : ℕ
  pub num_peers : ℕ
  pub is_root_of_tree : Bool
  pub state : ProcState

unfoldable pub find_by_real_pid : List Proc → ℕ → Option Proc
find_by_real_pid [] real = none
find_by_real_pid (p ∷ ps) real =
    let rest = find_by_real_pid ps real in if p.real_pid == real then some p else rest

unfoldable pub find_by_virt_pid : List Proc → ℕ → Option Proc
find_by_virt_pid [] virt = none
find_by_virt_pid (p ∷ ps) virt =
    let rest = find_by_virt_pid ps virt in if p.virt_pid == virt then some p else rest

unfoldable pub find_by_xnd_pid : List Proc → ℕ → Option Proc
find_by_xnd_pid [] xnd = none
find_by_xnd_pid (p ∷ ps) xnd =
    let rest = find_by_xnd_pid ps xnd in if p.xnd_pid == xnd then some p else rest

unfoldable pub real_to_virt : List Proc → ℕ → ℕ
real_to_virt [] real = minus_one
real_to_virt (p ∷ ps) real =
    let rest = real_to_virt ps real in if p.real_pid == real then p.virt_pid else rest

unfoldable pub virt_to_real : List Proc → ℕ → ℕ
virt_to_real [] virt = minus_one
virt_to_real (p ∷ ps) virt =
    let rest = virt_to_real ps virt in if p.virt_pid == virt then p.real_pid else rest

-- The list without the process that `find_by_real_pid` returns.
unfoldable pub remove_by_real_pid : List Proc → ℕ → List Proc
remove_by_real_pid [] real = []
remove_by_real_pid (p ∷ ps) real =
    let rest = remove_by_real_pid ps real in if p.real_pid == real then ps else p ∷ rest

-- A write through the pointer that `find_by_real_pid` returns.
unfoldable pub modify_by_real_pid : (Proc → Proc) → List Proc → ℕ → List Proc
modify_by_real_pid f [] real = []
modify_by_real_pid f (p ∷ ps) real =
    let rest = modify_by_real_pid f ps real in if p.real_pid == real then f p ∷ ps else p ∷ rest

-- A write through the pointer that `find_by_xnd_pid` returns.
unfoldable pub modify_by_xnd_pid : (Proc → Proc) → List Proc → ℕ → List Proc
modify_by_xnd_pid f [] xnd = []
modify_by_xnd_pid f (p ∷ ps) xnd =
    let rest = modify_by_xnd_pid f ps xnd in if p.xnd_pid == xnd then f p ∷ ps else p ∷ rest
