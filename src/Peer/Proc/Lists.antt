-- ===== src/Peer/Proc/Lists.antt =====
-- The lists of pids that the wrappers of xnd/pid/pid_wrappers.c translate.
use ckpt.Prelude.{
  ℕ, zero, suc, ◌/◌, ◌≡◌, ◌≢◌, ◌⊎◌, refl, ap, ◌∙◌, false, none, some, List, [], ◌∷◌, ◌==◌, length,
  Bool-cases, inl, inr, arith, minus_one,
}
use ckpt.Pid.Table.{Entries, real_to_virtual}
use ckpt.Peer.Base.{Peer, done}
use ckpt.Peer.Base.Ends.{Returns, returns, bind}
use ckpt.Peer.Translate.{Link}
use ckpt.Peer.Translate.Laws.{IsFree, Asked, real_to_virtual_pid_lem, real_to_virtual_pid_known}
use ckpt.Peer.Proc.{
  virtualize, list_entry, pid_list_real_to_virt, virtualize_list, is_positive, Result, Buffer,
  proc_listpgrppids_hook, proc_listchildpids_hook,
}
use ckpt.Peer.Proc.Laws.{IsReady, Leaves, Asked-trans, Asked-IsFree, with_real_pid_lem}

Asked-refl : (p : Peer) → IsFree p → Asked p p
Asked-refl p free = (
  p.oob_fd,
  ap (λ b. record p { oob_locked = b }) free.oob_free
      ∙ ap (λ b. record p { oob_locked = false; table_locked = b }) free.table_free,
)

list_entry_lem :
    (link : Link) (pid : ℕ) (p : Peer) → IsFree p → Returns (λ _. Asked p) (list_entry link pid p)
unfolding list_entry virtualize
list_entry_lem link pid p free = elim (Bool-cases (pid == 0)) [
  | inl absent ↦ rw absent (returns (Asked-refl p free))
  | inr there ↦
      rw there (bind (real_to_virtual_pid_lem link pid p free) (λ virt q asked. returns asked))
]

-- The translation of a list returns, keeps its length, and changes no other state than a lookup
-- does.
pid_list_lem :
    (link : Link) (list : List ℕ) (count : ℕ) (p : Peer)
    → IsFree p
    → Returns
        (λ l p'. (length l ≡ length list) × Asked p p')
        (pid_list_real_to_virt link list count p)
unfolding pid_list_real_to_virt
pid_list_lem link list zero p free = returns (refl, Asked-refl p free)
pid_list_lem link [] (suc count) p free = returns (refl, Asked-refl p free)
pid_list_lem link (pid ∷ list) (suc count) p free =
    bind (list_entry_lem link pid p free) (λ pid' q asked.
      bind (pid_list_lem link list count q (Asked-IsFree p q asked))
        (λ rest r (len, asked'). returns (ap suc len, Asked-trans p q r asked asked')))

pub virtualize_list_lem :
    (link : Link) (result : Result) (p : Peer)
    → IsFree p
    → Returns (λ _. Asked p) (virtualize_list link result p)
unfolding virtualize_list
virtualize_list_lem link (ret, none) p free = returns (Asked-refl p free)
virtualize_list_lem link (ret, some list) p free = elim (Bool-cases (is_positive ret)) [
  | inl full ↦
      rw full
        (bind (pid_list_lem link list (ret / 4) p free) (λ list' q (len, asked). returns asked))
  | inr empty ↦ rw empty (returns (Asked-refl p free))
]

-- `proc_listpgrppids` and `proc_listchildpids` return, whatever the pid and whatever the kernel and
-- the coordinator answer, with the thread and the table as they were and the locks free. The thread
-- is ready for a wrapper, and wrappers are not skipped.
pub list_hooks_balanced :
    (link : Link) (sys : ℕ → Buffer → ℕ → Result) (pid : ℕ) (buf : Buffer) (bufsize : ℕ) (p : Peer)
    → IsReady p
    → p.skip ≡ false
    → Returns (λ _. Leaves p) (proc_listpgrppids_hook link sys pid buf bufsize p)
      × Returns (λ _. Leaves p) (proc_listchildpids_hook link sys pid buf bufsize p)
unfolding proc_listpgrppids_hook proc_listchildpids_hook
list_hooks_balanced link sys pid buf bufsize p h hooked =
    let both =
      with_real_pid_lem link (λ real. sys real buf bufsize) (virtualize_list link) (0, buf) pid p h
        (virtualize_list_lem link) hooked in
    (both, both)

-- The virtual names of a list of real pids, by the table: 0 stays 0.
abbrev pub Named : Entries → List ℕ → List ℕ → Type 0
Named table [] [] = Unit {0}
Named table (pid ∷ list) (name ∷ names) =
    (((pid ≡ 0) × (name ≡ 0))
      ⊎ ((pid ≢ 0) × (real_to_virtual table pid ≡ some name) × (name ≢ minus_one)))
    × Named table list names
Named table _ _ = ⊥

list_entry_known :
    (link : Link) (pid name : ℕ) (p : Peer)
    → IsFree p
    → ((pid ≡ 0) × (name ≡ 0))
      ⊎ ((pid ≢ 0) × (real_to_virtual p.table pid ≡ some name) × (name ≢ minus_one))
    → list_entry link pid p ≡ done name p
unfolding list_entry virtualize
list_entry_known link pid name p free (inl (e, e')) = rw (e, e') refl
list_entry_known link pid name p free (inr (there, known, other)) = elim (Bool-cases (pid == 0)) [
  | inl absent ↦ absurd (there (ground arith))
  | inr named ↦ elim (Bool-cases (name == minus_one)) [
    | inl wrong ↦ absurd (other (ground arith))
    | inr right ↦ rw (named, real_to_virtual_pid_known link pid name p free known other, right) refl
  ]
]

-- A list of real pids that the table all knows, or that are 0, is translated to their virtual pids,
-- or 0, in order, and no state changes. No lock is held, and no virtual pid is -1.
pub pid_list_known :
    (link : Link) (list names : List ℕ) (p : Peer)
    → IsFree p
    → Named p.table list names
    → pid_list_real_to_virt link list (length list) p ≡ done names p
unfolding pid_list_real_to_virt
pid_list_known link [] [] p free named = refl
pid_list_known link (pid ∷ list) (name ∷ names) p free named =
    rw
      (list_entry_known link pid name p free named.0, pid_list_known link list names p free named.1)
      refl
pid_list_known link [] (name ∷ names) p free named = absurd named
pid_list_known link (pid ∷ list) [] p free named = absurd named
