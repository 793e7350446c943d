-- ===== src/Peer/Pid.antt =====
-- The wrappers of getpid, getppid, getpgrp, getpgid, fork, wait4, kill and killpg in
-- xnd/pid/pid_wrappers.c. What the kernel does is an argument; a pid is its 32-bit pattern.
pub mod Laws
pub mod Wait
use ckpt.Prelude.{
  ℕ, Bool, true, false, not, ◌&&◌, ◌||◌, Option, none, some, List, [], ◌∷◌, ◌++◌, ◌==◌,
  if◌then◌else◌, leb, neg32, minus_one,
}
use ckpt.Pid.Table.{update, erase}
use ckpt.Coord.Base.{exit_msg, success, Msg, zeroed}
use ckpt.Peer.Base.{
  oob_lock, oob_unlock, Peer, done, waits, P, pure, and_then, ◌>>=◌, ◌>>◌, check, set_errno,
  unsafe_enter, unsafe_exit, change_table,
}
use ckpt.Peer.Translate.{Link, open_oob, virtual_to_real_pid, real_to_virtual_pid}

-- The kernel's answers, and the signal that `env_get_ckpt_signal` names.
pub record Kernel : Type 0 where
  pub getpid : ℕ
  pub getppid : ℕ
  pub getpgrp : ℕ
  pub getpgid : ℕ → ℕ
  pub kill : ℕ → ℕ → ℕ
  pub killpg : ℕ → ℕ → ℕ
  pub ckpt_signal : ℕ

-- `case INT32_MIN ... -2`
abbrev pub is_group : ℕ → Bool
is_group pid = leb 2147483648 pid && not (pid == minus_one)

module _ (kernel : Kernel) (link : Link) where
  unfoldable pub getpid_hook : P ℕ
  getpid_hook p =
      done (if not (p.info.virt_pid == minus_one) then p.info.virt_pid else kernel.getpid) p

  unfoldable pub getppid_hook : P ℕ
  getppid_hook p =
      done (if not (p.info.virt_ppid == minus_one) then p.info.virt_ppid else kernel.getppid) p

  -- The two groups that need no translation.
  unfoldable pub virtual_group : ℕ → P ℕ
  virtual_group real_pgrp p =
      if real_pgrp == p.info.real_pid
      then done p.info.virt_pid p
      else if real_pgrp == p.info.real_ppid
      then done p.info.virt_ppid p
      else real_to_virtual_pid link real_pgrp p

  unfoldable pub getpgrp_hook : P ℕ
  getpgrp_hook = do
    unsafe_enter
    virt_pgrp ← virtual_group kernel.getpgrp
    unsafe_exit
    pure virt_pgrp

  unfoldable pub group_of : ℕ → P ℕ
  group_of real_pid =
      if real_pid == minus_one
      then pure minus_one
      else real_to_virtual_pid link (kernel.getpgid real_pid)

  unfoldable pub getpgid_hook : ℕ → P ℕ
  getpgid_hook pid p =
      let other = do
        unsafe_enter
        real_pid ← virtual_to_real_pid link pid
        virt_pgid ← group_of real_pid
        unsafe_exit
        pure virt_pgid
      in if pid == 0 || pid == p.info.real_pid then getpgrp_hook p else other p

  -- `real_ret` is what `fork` returns once its handlers have run, `env_virt` the child's virtual pid
  -- as `env_get_pid_info` reads it, `atfork_failed` the handler of a fork that failed.
  unfoldable pub after_fork : (atfork_failed : P (Unit {0})) (env_virt real_ret : ℕ) → P ℕ
  after_fork atfork_failed env_virt real_ret =
      if real_ret == minus_one
      then (do atfork_failed; pure minus_one)
      else if real_ret == 0
      then pure 0
      else (do change_table (λ table. update table env_virt real_ret); pure env_virt)

  unfoldable pub fork_hook : (atfork_failed : P (Unit {0})) (env_virt real_ret : ℕ) → P ℕ
  fork_hook atfork_failed env_virt real_ret = do
    unsafe_enter
    virt_ret ← after_fork atfork_failed env_virt real_ret
    unsafe_exit
    pure virt_ret

  unfoldable pub signal_to : (ℕ → ℕ → ℕ) → (sig real_pid : ℕ) → ℕ
  signal_to send sig real_pid = if real_pid == minus_one then minus_one else send real_pid sig

  unfoldable pub killpg_hook : (pgrp sig : ℕ) → P ℕ
  killpg_hook pgrp sig =
      let to_own = pure (kernel.killpg 0 sig) in
      let to_other : P ℕ = do
        real_pgrp ← virtual_to_real_pid link pgrp
        pure (signal_to kernel.killpg sig real_pgrp)
      in let send : P ℕ = do
        unsafe_enter
        retval ← (if pgrp == 0 then to_own else to_other)
        unsafe_exit
        pure retval
        in if sig == kernel.ckpt_signal then pure minus_one else send

  unfoldable pub kill_one : (pid sig : ℕ) → P ℕ
  kill_one pid sig = do
    unsafe_enter
    real_pid ← virtual_to_real_pid link pid
    retval ← pure (signal_to kernel.kill sig real_pid)
    unsafe_exit
    pure retval

  unfoldable pub kill_all : (sig : ℕ) → P ℕ
  kill_all sig = do unsafe_enter; unsafe_exit; pure (kernel.kill minus_one sig)

  unfoldable pub kill_hook : (pid sig : ℕ) → P ℕ
  kill_hook pid sig =
      if sig == kernel.ckpt_signal
      then pure minus_one
      else if is_group pid
      then killpg_hook (neg32 pid) sig
      else if pid == minus_one
      then kill_all sig
      else if pid == 0
      then killpg_hook 0 sig
      else kill_one pid sig

-- What one call of the kernel's `wait4` answers.
pub record Waited : Type 0 where
  pub ret : ℕ
  pub errno : ℕ
  pub exited : Bool
  pub signaled : Bool

module _ (link : Link) where
  -- The pid or group to wait for. A pid that has no real one fails an assertion.
  unfoldable pub wait_target : ℕ → P ℕ
  wait_target pid =
      let of_group : P ℕ = do
        real ← virtual_to_real_pid link (neg32 pid)
        check (not (real == minus_one))
        pure (neg32 real)
      in let of_one : P ℕ = do
        real ← virtual_to_real_pid link pid
        check (not (real == minus_one))
        pure real
        in if is_group pid
          then of_group
          else if pid == 0 || pid == minus_one
          then pure pid
          else of_one

  abbrev send_exit : Option Msg → P (Unit {0})
  send_exit none p = done tt p
  send_exit (some msg) p =
      if link.sends p.oob_fd msg
      then done tt (record p { notified = p.notified ++ (msg.real_pid ∷ []) })
      else done tt p

  -- `notify_coord_of_exit` of xnd/coordinator/xnd_coord_client.c.
  unfoldable pub notify_coord_of_exit : ℕ → P (Unit {0})
  notify_coord_of_exit pid = do
    oob_lock
    opened ← open_oob link (record (zeroed exit_msg success) { real_pid = pid })
    send_exit opened
    oob_unlock

  -- What is done about a child that `wait4` returns.
  unfoldable pub reap : Waited → ℕ → P (Unit {0})
  reap r virt =
      let forget = change_table (λ table. erase table virt) in
      let report : P (Unit {0}) = do
        real ← virtual_to_real_pid link virt
        notify_coord_of_exit real
        forget
      in if r.exited then forget else if r.signaled then report else pure tt

  unfoldable pub waited_for : Waited → P ℕ
  waited_for r =
      if r.ret == 0
      then pure 0
      else (do virt ← real_to_virtual_pid link r.ret; reap r virt; pure virt)

  -- One round: `none` is the jump to `fail`, which passes over `unsafe_exit`.
  unfoldable pub wait_round : (ℕ → Waited) → ℕ → P (Option ℕ)
  wait_round wait4 pid =
      let failed : Waited → P (Option ℕ) = λ r. (do set_errno r.errno; pure none) in
      let went : Waited → P (Option ℕ) = λ r. do virt ← waited_for r; unsafe_exit; pure (some virt)
      in (do
        unsafe_enter
        real_pid ← wait_target pid
        if (wait4 real_pid).ret == minus_one
            then failed (wait4 real_pid)
            else went (wait4 real_pid))

  abbrev pub wait_end : (no_hang : Bool) (sv_errno : ℕ) → P ℕ → Option ℕ → P ℕ
  wait_end no_hang sv_errno again none p = done minus_one p
  wait_end no_hang sv_errno again (some virt) p =
      if no_hang || not (virt == 0) then done virt (record p { errno = sv_errno }) else again p

  wait_loop : List (ℕ → Waited) → (no_hang : Bool) (sv_errno pid : ℕ) → P ℕ
  wait_loop [] no_hang sv_errno pid = λ p. waits
  wait_loop (wait4 ∷ later) no_hang sv_errno pid = do
    virt ← wait_round wait4 pid
    wait_end no_hang sv_errno (wait_loop later no_hang sv_errno pid) virt

  -- `answers` are those of the kernel, call by call.
  unfoldable pub wait4_hook : (answers : List (ℕ → Waited)) (pid : ℕ) (no_hang : Bool) → P ℕ
  unfolding wait_loop
  wait4_hook answers pid no_hang p = wait_loop answers no_hang p.errno pid p

  unfoldable pub waitpid_hook : (answers : List (ℕ → Waited)) (pid : ℕ) (no_hang : Bool) → P ℕ
  waitpid_hook answers pid no_hang = wait4_hook answers pid no_hang

  unfoldable pub wait3_hook : (answers : List (ℕ → Waited)) (no_hang : Bool) → P ℕ
  wait3_hook answers no_hang = wait4_hook answers minus_one no_hang

  unfoldable pub wait_hook : (answers : List (ℕ → Waited)) → P ℕ
  wait_hook answers = wait4_hook answers minus_one false
