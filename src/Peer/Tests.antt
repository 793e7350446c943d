-- ===== src/Peer/Tests.antt =====
-- The theorems of the pid wrappers (xnd/pid/pid_wrappers.c) at concrete states.
use ckpt.Prelude.{ℕ, ◌+◌, ◌≡◌, refl, true, false, none, some, [], ◌∷◌, arith, minus_one}
use ckpt.ProcList.{find_by_virt_pid}
use ckpt.Pid.Table.{virtual_to_real, real_to_virtual, erase}
use ckpt.Coord.Base.{coord_ack, exited, exit_failure, coord_cleanup, coord_recv_msg}
use ckpt.Coord.Message.{coord_handle_msg}
use ckpt.Coord.Samples.{blank, child, two, two-IsValid, answering}
use ckpt.Coord.Serve.{Arrival, coord_wait_for_connection}
use ckpt.Peer.Base
use ckpt.Peer.Base.{ThreadInfo, unsafe, Peer, P, pure, done, and_then}
use ckpt.Peer.Base.Ends.{Returns}
use ckpt.Peer.Translate.{Link, virtual_to_real_pid}
use ckpt.Peer.Proc.{Buffer, Result, with_real_pid, virtualize_list}
use ckpt.Peer.Proc.Laws.{IsReady, Leaves, with_real_pid_lem}
use ckpt.Peer.Proc.Lists.{virtualize_list_lem}
use ckpt.Peer.Pid.{Kernel, kill_hook, fork_hook, Waited, wait4_hook, notify_coord_of_exit}
use ckpt.Peer.Pid.Laws.{with_child, fork_then_kill}
use ckpt.Peer.Pid.Wait.{wait4_reaps, wait4_fails_unsafe}
use ckpt.Peer.Agree.{reply, translation_agrees, exit_message, notify_ends_coordinator}

-- A process with virtual pid 2 whose child is 3.
abbrev parent : Peer
parent = record {
  self = some (record { state = ckpt.Peer.Base.running; wrapper_depth = 0 });
  skip = false;
  info = record { virt_pid = 2; real_pid = 700; virt_ppid = 1; real_ppid = 600 };
  table = (2, 700) ∷ (1, 600) ∷ (3, 701) ∷ [];
  table_locked = false;
  oob_locked = false;
  oob_fd = minus_one;
  xnd_pid = 2;
  errno = 0;
  notified = [];
}

parent-IsReady : IsReady parent
parent-IsReady = record { steady = refl; free = record { table_free = refl; oob_free = refl } }

-- A coordinator that knows nothing.
abbrev silent : Link
silent = record {
  connect_to_coord = 9;
  sends = λ fd msg. true;
  receives = λ fd msg. none;
  garbage = blank;
}

-- The kernel's `kill` answers with the pid that it is given.
abbrev kernel : Kernel
kernel = record {
  getpid = 700;
  getppid = 600;
  getpgrp = 700;
  getpgid = λ pid. 700;
  kill = λ pid sig. pid;
  killpg = λ pgrp sig. pgrp + sig;
  ckpt_signal = 31;
}

-- A group of the process itself and one that nobody knows.
abbrev group : ℕ → Buffer → ℕ → Result
group real buf bufsize = (8, some (700 ∷ 999 ∷ []))

with_real_pid_lem_example :
    Returns
      (λ _. Leaves parent)
      (with_real_pid silent (λ real. group real none 8) (virtualize_list silent) (0, none) 5 parent)
with_real_pid_lem_example =
    with_real_pid_lem silent (λ real. group real none 8) (virtualize_list silent) (0, none) 5 parent
      parent-IsReady (virtualize_list_lem silent) refl

fork_then_kill_example :
    and_then
      (fork_hook kernel silent (pure tt) 4 702 parent)
      (λ pid. kill_hook kernel silent pid 15)
    ≡ done 702 (with_child kernel silent parent parent-IsReady 4 702)
fork_then_kill_example =
    fork_then_kill kernel silent parent parent-IsReady (pure tt) 4 702 15 (λ e. omega arith)
      (omega arith) (omega arith) (λ e. omega arith) (λ e. omega arith)

abbrev exits : ℕ → Waited
exits pid = record { ret = pid; errno = 0; exited = true; signaled = false }

wait4_reaps_example :
    wait4_hook silent (exits ∷ []) 3 false parent
    ≡ done 3 (record parent { table = erase parent.table 3 })
unfolding virtual_to_real real_to_virtual
wait4_reaps_example =
    wait4_reaps silent parent parent-IsReady exits [] 3 701 false (omega arith) (omega arith) refl
      refl (λ e. omega arith) (λ e. omega arith) refl refl

-- The child was waited for by another thread: ECHILD.
abbrev echild : ℕ → Waited
echild pid = record { ret = minus_one; errno = 10; exited = false; signaled = false }

wait4_fails_unsafe_example :
    wait4_hook silent (echild ∷ []) 3 false parent
    ≡ done minus_one
        (record parent { self = some (record { state = unsafe; wrapper_depth = 1 }); errno = 10 })
unfolding virtual_to_real
wait4_fails_unsafe_example =
    wait4_fails_unsafe silent parent parent-IsReady echild [] 3 701 false (omega arith)
      (omega arith) refl (λ e. omega arith) refl refl

-- The leader asks the coordinator for its child, which its own table does not hold.
abbrev asking : Peer
asking = record parent { table = (2, 700) ∷ []; oob_fd = 9 }

abbrev served : Link
served = record silent {
  receives = λ fd msg. reply (coord_handle_msg (answering coord_ack) 8 msg two);
}

translation_agrees_example : virtual_to_real_pid served 3 asking ≡ done 701 asking
unfolding virtual_to_real find_by_virt_pid
translation_agrees_example =
    translation_agrees served asking (answering coord_ack) 8 two child 3
      (record { table_free = refl; oob_free = refl }) (λ e. omega arith) refl refl refl two-IsValid
      refl refl (λ e. omega arith)

-- The parent reports the death of its child.
abbrev reported : Arrival
reported = record {
  world = record (answering coord_ack) { incoming = λ fd. some (exit_message parent 701) };
  accepted = some 7;
  garbage = blank;
  raw = child;
  schedule = record {
    before_request = [];
    suspending = [];
    dir_created = true;
    before_start = [];
    starting = answering coord_ack;
    before_done = [];
    finishing = answering coord_ack;
    manifest_written = true;
    resuming = answering coord_ack;
  };
}

notify_ends_coordinator_example :
    (notify_coord_of_exit silent 701 parent
      ≡ done tt (record parent { oob_fd = 9; notified = 701 ∷ [] }))
    × (coord_wait_for_connection reported two ≡ exited exit_failure (coord_cleanup true two))
unfolding coord_recv_msg
notify_ends_coordinator_example =
    notify_ends_coordinator silent parent 701 7 reported two
      (record { table_free = refl; oob_free = refl }) refl (omega arith) refl refl refl
