-- ===== src/Peer/Pid/Wait.antt =====
-- wait4 as the wrapper in xnd/pid/pid_wrappers.c runs it.
use ckpt.Prelude.{
  ℕ, ◌<◌, ◌≡◌, ◌≢◌, refl, ap, ◌∙◌, true, false, Bool, none, some, List, ◌∷◌, leb, Bool-cases, inl,
  inr, arith, minus_one,
}
use ckpt.Pid.Table.{virtual_to_real, real_to_virtual, erase}
use ckpt.Peer.Base.{running, unsafe, Peer, done}
use ckpt.Peer.Base.Ends.{entered}
use ckpt.Peer.Translate.{Link}
use ckpt.Peer.Translate.Laws.{
  change_table_lem, virtual_to_real_pid_known, real_to_virtual_pid_known,
}
use ckpt.Peer.Proc.Laws.{IsReady, inside, enter_then, inside-IsFree, leave_now}
use ckpt.Peer.Pid.Laws.{unequal}
use ckpt.Peer.Pid.{Waited, wait_target, reap, waited_for, wait_round, wait_loop, wait4_hook}

module _ (link : Link) (p : Peer) (h : IsReady p) where
  target_known :
      (pid real : ℕ)
      → 0 < pid
      → pid < 2147483648
      → virtual_to_real p.table pid ≡ some real
      → real ≢ minus_one
      → wait_target link pid (inside p) ≡ done real (inside p)
  unfolding wait_target
  target_known pid real positive small known other =
      rw
        (
          unequal pid 0 (λ e. omega arith),
          unequal pid minus_one (λ e. omega arith),
          not_group,
          virtual_to_real_pid_known link pid real (inside p) (inside-IsFree p h.free) known other,
          unequal real minus_one other,
        )
        refl
    where
      not_group : leb 2147483648 pid ≡ false
      not_group = ground arith

  round :
      (wait4 : ℕ → Waited) (pid real : ℕ)
      → 0 < pid
      → pid < 2147483648
      → virtual_to_real p.table pid ≡ some real
      → real_to_virtual p.table real ≡ some pid
      → real ≢ minus_one
      → real ≢ 0
      → (wait4 real).ret ≡ real
      → (wait4 real).exited ≡ true
      → wait_round link wait4 pid p ≡ done (some pid) (record p { table = erase p.table pid })
  unfolding wait_round waited_for reap
  round wait4 pid real positive small known back other parent child exits =
      enter_then _ p h
      ∙ rw
          (
            target_known pid real positive small known other,
            child,
            unequal real minus_one other,
            unequal real 0 parent,
            real_to_virtual_pid_known link real pid (inside p) (inside-IsFree p h.free) back
                (λ e. omega arith),
            exits,
            change_table_lem (λ table. erase table pid) (inside p) (inside-IsFree p h.free),
          )
          (leave_now (some pid) (record p { table = erase p.table pid })
            (record {
              steady = h.steady;
              free = record { table_free = h.free.table_free; oob_free = h.free.oob_free };
            }))

  -- A child that exited is waited for by its positive virtual pid: the wrapper returns that pid,
  -- and takes the child out of the table, which is all that changes. The kernel's first answer is
  -- the child, which the table knows in both directions, by a real pid that is neither 0 nor -1,
  -- and the thread is ready for a wrapper.
  pub wait4_reaps :
      (wait4 : ℕ → Waited) (later : List (ℕ → Waited)) (pid real : ℕ) (no_hang : Bool)
      → 0 < pid
      → pid < 2147483648
      → virtual_to_real p.table pid ≡ some real
      → real_to_virtual p.table real ≡ some pid
      → real ≢ minus_one
      → real ≢ 0
      → (wait4 real).ret ≡ real
      → (wait4 real).exited ≡ true
      → wait4_hook link (wait4 ∷ later) pid no_hang p
        ≡ done pid (record p { table = erase p.table pid })
  unfolding wait4_hook wait_loop
  wait4_reaps wait4 later pid real no_hang positive small known back other parent child exits =
      rw (round wait4 pid real positive small known back other parent child exits)
        (elim (Bool-cases no_hang) [
          | inl once ↦ rw once refl
          | inr loops ↦ rw (loops, unequal pid 0 (λ e. omega arith)) refl
        ])

  round_fails :
      (wait4 : ℕ → Waited) (pid real : ℕ)
      → 0 < pid
      → pid < 2147483648
      → virtual_to_real p.table pid ≡ some real
      → real ≢ minus_one
      → (wait4 real).ret ≡ minus_one
      → wait_round link wait4 pid p ≡ done none (record (inside p) { errno = (wait4 real).errno })
  unfolding wait_round
  round_fails wait4 pid real positive small known other failed =
      enter_then _ p h ∙ rw (target_known pid real positive small known other, failed) refl

  -- An error of the kernel's first wait4 on a child of the table makes the wrapper return -1 with
  -- the thread still inside of it: a thread that ran, with no wrapper entered, is left in the state
  -- `unsafe` at depth 1.
  pub wait4_fails_unsafe :
      (wait4 : ℕ → Waited) (later : List (ℕ → Waited)) (pid real : ℕ) (no_hang : Bool)
      → 0 < pid
      → pid < 2147483648
      → virtual_to_real p.table pid ≡ some real
      → real ≢ minus_one
      → (wait4 real).ret ≡ minus_one
      → p.self ≡ some (record { state = running; wrapper_depth = 0 })
      → wait4_hook link (wait4 ∷ later) pid no_hang p
        ≡ done minus_one (record p {
          self = some (record { state = unsafe; wrapper_depth = 1 });
          errno = (wait4 real).errno;
        })
  unfolding wait4_hook wait_loop
  wait4_fails_unsafe wait4 later pid real no_hang positive small known other failed self =
      rw (round_fails wait4 pid real positive small known other failed) (
        ap (λ o. done minus_one (record p { self = o; errno = (wait4 real).errno }))
          (ap entered self))
