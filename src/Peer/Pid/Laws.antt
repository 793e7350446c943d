-- ===== src/Peer/Pid/Laws.antt =====
-- Whom the wrappers of kill, killpg and fork in xnd/pid/pid_wrappers.c reach.
use ckpt.Prelude.{
  ℕ, ◌<◌, ◌≤◌, ◌≡◌, ◌≢◌, refl, ◌∙◌, true, false, some, ◌==◌, ==_refl, leb, neg32, Bool-cases, inl,
  inr, arith, minus_one,
}
use ckpt.Pid.Table.{virtual_to_real, update}
use ckpt.Pid.Table.Laws.{virtual_to_real-update}
use ckpt.Peer.Base.{Peer, done, P, and_then}
use ckpt.Peer.Translate.{Link}
use ckpt.Peer.Translate.Laws.{virtual_to_real_pid_known, change_table_lem}
use ckpt.Peer.Proc.Laws.{IsReady, inside, enter_then, inside-IsFree, leave_now}
use ckpt.Peer.Pid.{
  Kernel, is_group, signal_to, kill_one, killpg_hook, kill_hook, after_fork, fork_hook,
}

-- A number that is not the one compared with.
pub unequal : (a b : ℕ) → a ≢ b → (a == b) ≡ false
unequal a b other = elim (Bool-cases (a == b)) [
  | inl wrong ↦ absurd (other (ground arith))
  | inr right ↦ right
]

module _ (kernel : Kernel) (link : Link) (p : Peer) (h : IsReady p) where
  kill_one_known :
      (pid sig real : ℕ)
      → virtual_to_real p.table pid ≡ some real
      → real ≢ minus_one
      → kill_one kernel link pid sig p ≡ done (kernel.kill real sig) p
  unfolding kill_one signal_to
  kill_one_known pid sig real known other =
      enter_then _ p h
      ∙ rw
          (
            virtual_to_real_pid_known link pid real (inside p) (inside-IsFree p h.free) known other,
            unequal real minus_one other,
          )
          (leave_now (kernel.kill real sig) p h)

  -- A signal to a positive virtual pid that is in the table goes to its real process, and no state
  -- changes. The thread is ready for a wrapper, the signal is not the one that is kept for
  -- checkpoints, and the real pid is not -1.
  pub kill_known :
      (pid sig real : ℕ)
      → sig ≢ kernel.ckpt_signal
      → 0 < pid
      → pid < 2147483648
      → virtual_to_real p.table pid ≡ some real
      → real ≢ minus_one
      → kill_hook kernel link pid sig p ≡ done (kernel.kill real sig) p
  unfolding kill_hook
  kill_known pid sig real free positive small known other =
      rw
        (
          unequal sig kernel.ckpt_signal free,
          unequal pid 0 (λ e. omega arith),
          unequal pid minus_one (λ e. omega arith),
          not_group,
        )
        (kill_one_known pid sig real known other)
    where
      not_group : leb 2147483648 pid ≡ false
      not_group = ground arith

  killpg_known :
      (pgrp sig real : ℕ)
      → sig ≢ kernel.ckpt_signal
      → pgrp ≢ 0
      → virtual_to_real p.table pgrp ≡ some real
      → real ≢ minus_one
      → killpg_hook kernel link pgrp sig p ≡ done (kernel.killpg real sig) p
  unfolding killpg_hook signal_to
  killpg_known pgrp sig real free positive known other = rw (unequal sig kernel.ckpt_signal free) (
      enter_then _ p h
      ∙ rw
          (
            unequal pgrp 0 positive,
            virtual_to_real_pid_known link pgrp real (inside p) (inside-IsFree p h.free) known
                other,
            unequal real minus_one other,
          )
          (leave_now (kernel.killpg real sig) p h))

  -- A signal to a negative pid below -1 goes to the real group of the virtual group that it names,
  -- and no state changes. The group is in the table, its real id is not -1, the thread is ready for
  -- a wrapper, and the signal is not the one that is kept for checkpoints.
  pub kill_group_known :
      (pgrp sig real : ℕ)
      → sig ≢ kernel.ckpt_signal
      → 1 < pgrp
      → pgrp ≤ 2147483648
      → virtual_to_real p.table pgrp ≡ some real
      → real ≢ minus_one
      → kill_hook kernel link (neg32 pgrp) sig p ≡ done (kernel.killpg real sig) p
  unfolding kill_hook
  kill_group_known pgrp sig real free positive small known other =
      rw (unequal sig kernel.ckpt_signal free, group, back)
        (killpg_known pgrp sig real free (λ e. omega arith) known other)
    where
      group : is_group (neg32 pgrp) ≡ true
      group = ground arith

      back : neg32 (neg32 pgrp) ≡ pgrp
      back = omega arith

  -- The state of a parent after a fork.
  abbrev pub with_child : (virt real : ℕ) → Peer
  with_child virt real = record p { table = update p.table virt real }

  fork_parent :
      (atfork_failed : P (Unit {0})) (virt real : ℕ)
      → real ≢ minus_one
      → real ≢ 0
      → fork_hook kernel link atfork_failed virt real p ≡ done virt (with_child virt real)
  unfolding fork_hook after_fork
  fork_parent atfork_failed virt real other parent =
      enter_then _ p h
      ∙ rw
          (
            unequal real minus_one other,
            unequal real 0 parent,
            change_table_lem (λ table. update table virt real) (inside p) (inside-IsFree p h.free),
          )
          (leave_now virt (with_child virt real) (record {
            steady = h.steady;
            free = record { table_free = h.free.table_free; oob_free = h.free.oob_free };
          }))

-- A parent can signal its child by the virtual pid that fork returned: fork returns the child's
-- virtual pid, and kill on it then reaches the child's real process. The thread is ready for a
-- wrapper, the virtual pid is positive, the real one is neither 0 nor -1, and the signal is not the
-- one that is kept for checkpoints.
pub fork_then_kill :
    (kernel : Kernel) (link : Link) (p : Peer) (h : IsReady p) (atfork_failed : P (Unit {0}))
    (virt real sig : ℕ)
    → sig ≢ kernel.ckpt_signal
    → 0 < virt
    → virt < 2147483648
    → real ≢ minus_one
    → real ≢ 0
    → and_then
        (fork_hook kernel link atfork_failed virt real p)
        (λ pid. kill_hook kernel link pid sig)
      ≡ done (kernel.kill real sig) (with_child kernel link p h virt real)
fork_then_kill kernel link p h atfork_failed virt real sig free positive small other parent =
    rw (fork_parent kernel link p h atfork_failed virt real other parent) (
      kill_known kernel link (with_child kernel link p h virt real)
        (record {
          steady = h.steady;
          free = record { table_free = h.free.table_free; oob_free = h.free.oob_free };
        })
        virt sig real free positive small
        (virtual_to_real-update p.table virt real virt ∙ rw (==_refl virt) refl) other)
