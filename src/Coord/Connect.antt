-- ===== src/Coord/Connect.antt =====
-- How processes join the coordinator of xnd/coordinator/xnd_coord.c: on launch, on restart and by
-- fork. `raw` is the memory that `malloc` hands out for a process, and `garbage` the memory of a
-- message that the code fills in only in part.
pub mod Invariant
pub mod Join
pub mod Launch
pub mod Fork
pub mod Restart
pub mod Child
use ckpt.Prelude.{
  ℕ, ◌+◌, Bool, true, false, not, Option, none, some, List, [], ◌∷◌, ◌==◌, if◌then◌else◌, minus_one,
  leb, next32, ge_signed,
}
use ckpt.ProcList.{
  Proc, running, restart_in_progress, find_by_real_pid, find_by_virt_pid, modify_by_real_pid,
}
use ckpt.Pid.Table.{update, virtual_id_exists, real_id_exists}
use ckpt.Coord.Base.{
  MsgHdr, atfork_child, coord_ack, success, Msg, closed, Coord, Run, returned, aborted, M, pure,
  ◌>>=◌, ◌>>◌, emit, check, World, coord_send_msg, coord_recv_msg, exit_failure, coord_exit,
  proc_list_add,
}

unfoldable pub coord_next_virt_pid : M ℕ
unfolding coord_exit
coord_next_virt_pid c =
    let next = c.next_virt_pid in
    let c' = record c { next_virt_pid = next32 next } in
    if virtual_id_exists c.table next then coord_exit exit_failure c' else returned next c'

unfoldable pub coord_next_xnd_pid : M ℕ
coord_next_xnd_pid c = returned c.next_xnd_pid (record c { next_xnd_pid = next32 c.next_xnd_pid })

abbrev pub handshake_msg : Msg → Coord → Proc → Msg
handshake_msg garbage c p = record garbage {
  hdr = coord_ack;
  ret = success;
  real_pid = p.real_pid;
  virt_pid = p.virt_pid;
  real_ppid = p.real_ppid;
  virt_ppid = p.virt_ppid;
  xnd_uuid = c.xnd_uuid;
  xnd_pid = p.xnd_pid;
  xnd_ppid = p.xnd_ppid;
  xnd_pgid = p.xnd_pgid;
}

unfoldable pub coord_send_handshake : World → Msg → Proc → M (Unit {0})
unfolding coord_send_msg coord_exit
coord_send_handshake w garbage p c =
    let run : M (Unit {0}) = do
      done ← coord_send_msg w p.fd (handshake_msg garbage c p)
      if done then pure tt else coord_exit exit_failure
    in run c

-- `pid_table_update` of the process and of its parent, and `proc_list_add`.
unfoldable pub enlist : Proc → M (Unit {0})
unfolding proc_list_add
enlist p c =
    let table = update (update c.table p.virt_pid p.real_pid) p.virt_ppid p.real_ppid in
    returned tt (proc_list_add p (record c { table = table }))

-- A process whose real pid is known has a new image and a new connection. Where the list has no
-- such process the source follows a null pointer.
reconnect : World → Msg → ℕ → Option Proc → M (Unit {0})
unfolding coord_send_handshake
reconnect w garbage fd none c = aborted
reconnect w garbage fd (some p) c =
    let p' = record p { fd = fd } in
    let moved = modify_by_real_pid (λ q. record q { fd = fd }) c.procs p.real_pid in
    coord_send_handshake w garbage p' (record (emit (closed p.fd) c) { procs = moved })

unfoldable pub adopt : Proc → Option Proc → M Proc
unfolding coord_next_virt_pid coord_next_xnd_pid
adopt p none c = aborted
adopt p (some parent) c =
    let run : M Proc = do
      virt ← coord_next_virt_pid
      xnd ← coord_next_xnd_pid
      pure (record p {
        virt_ppid = parent.virt_pid;
        xnd_ppid = parent.xnd_pid;
        xnd_pgid = parent.xnd_pgid;
        virt_pid = virt;
        xnd_pid = xnd;
      })
    in run c

unfoldable pub found_group : Proc → M Proc
unfolding coord_next_virt_pid coord_next_xnd_pid
found_group p = do
  virt_ppid ← coord_next_virt_pid
  virt_pid ← coord_next_virt_pid
  xnd_ppid ← coord_next_xnd_pid
  xnd_pid ← coord_next_xnd_pid
  pure (record p {
    virt_ppid = virt_ppid;
    virt_pid = virt_pid;
    xnd_ppid = xnd_ppid;
    xnd_pid = xnd_pid;
    xnd_pgid = xnd_pid;
  })

unfoldable pub coord_connect_with_process_on_launch :
    World → (garbage : Msg) (raw : Proc) (fd : ℕ) → Msg → M (Unit {0})
unfolding reconnect adopt found_group coord_send_handshake enlist
coord_connect_with_process_on_launch w garbage raw fd msg c =
    let p = record raw {
      fd = fd;
      oob_fd = minus_one;
      real_pid = msg.real_pid;
      real_ppid = msg.real_ppid;
    } in
    let join : M (Unit {0}) = do
      check (c.epoch == 0)
      p' ←
          (if real_id_exists c.table p.real_ppid
            then adopt p (find_by_real_pid c.procs p.real_ppid)
            else found_group p)
      coord_send_handshake w garbage p'
      enlist (record p' { state = running })
    in if real_id_exists c.table msg.real_pid
      then reconnect w garbage fd (find_by_real_pid c.procs msg.real_pid) c
      else join c

unfoldable pub coord_connect_with_process_on_restart :
    World → (garbage : Msg) (raw : Proc) (fd : ℕ) → Msg → M (Unit {0})
unfolding coord_send_handshake enlist
coord_connect_with_process_on_restart w garbage raw fd msg c =
    let p = record raw {
      fd = fd;
      oob_fd = minus_one;
      real_pid = msg.real_pid;
      virt_pid = msg.virt_pid;
      real_ppid = msg.real_ppid;
      virt_ppid = msg.virt_ppid;
      xnd_pid = msg.xnd_pid;
      xnd_ppid = msg.xnd_ppid;
      xnd_pgid = msg.xnd_pgid;
    } in
    let c' = record c {
      next_virt_pid =
          if ge_signed p.virt_pid c.next_virt_pid then next32 p.virt_pid else c.next_virt_pid;
      next_xnd_pid = if leb c.next_xnd_pid p.xnd_pid then next32 p.xnd_pid else c.next_xnd_pid;
    } in
    let run : M (Unit {0}) = do
      coord_send_handshake w garbage p
      enlist (record p { state = restart_in_progress })
    in run c'

abbrev is_atfork_child : MsgHdr → Bool
is_atfork_child atfork_child = true
is_atfork_child _ = false

-- The child's first message, on the connection that its parent opened for it.
unfoldable pub welcome : World → Msg → Proc → Option Proc → Option Msg → M (Unit {0})
unfolding coord_exit coord_send_handshake enlist
welcome w garbage child none child_msg = coord_exit exit_failure
welcome w garbage child (some parent) none = coord_exit exit_failure
welcome w garbage child (some parent) (some msg) =
    let child' = record child { real_pid = msg.real_pid; real_ppid = msg.real_ppid } in
    do
      check (is_atfork_child msg.hdr)
      check (msg.real_ppid == parent.real_pid)
      coord_send_handshake w garbage child'
      enlist (record child' { state = running })

unfoldable pub coord_atfork : World → (garbage : Msg) (raw : Proc) (fd : ℕ) → Msg → M (Unit {0})
unfolding coord_next_virt_pid coord_next_xnd_pid coord_send_msg coord_recv_msg coord_exit welcome
coord_atfork w garbage raw fd parent_msg = do
  virt ← coord_next_virt_pid
  xnd ← coord_next_xnd_pid
  done ← coord_send_msg w fd (record garbage { hdr = coord_ack; ret = success; virt_pid = virt })
  if done
      then (λ c.
          welcome w garbage
            (record raw {
              fd = fd;
              oob_fd = minus_one;
              virt_pid = virt;
              xnd_pid = xnd;
              virt_ppid = parent_msg.virt_ppid;
              xnd_ppid = parent_msg.xnd_ppid;
              xnd_pgid = parent_msg.xnd_pgid;
            })
            (find_by_virt_pid c.procs parent_msg.virt_ppid) (coord_recv_msg w fd) c)
      else coord_exit exit_failure
