-- ===== src/Coord/Serve.antt =====
-- How the coordinator of xnd/coordinator/xnd_coord.c takes new connections, and how it brings a
-- restarted computation together: `coord_wait_for_connection`, `coord_handle_command` and
-- `coord_do_restart`.
pub mod Laws
pub mod Restart
use ckpt.Prelude.{
  ℕ, Bool, true, false, not, Option, none, some, List, [], ◌∷◌, ◌++◌, ◌==◌, if◌then◌else◌, ltb, map,
}
use ckpt.ProcList.{Proc, find_by_xnd_pid, modify_by_xnd_pid}
use ckpt.Coord.Base.{
  MsgHdr, connect_launch, connect_restart, exit_msg, atfork_prepare, atfork_child, atfork_failed,
  command, coord_ack, client_ack, virt_to_real, real_to_virt, ckpt_request, ckpt_ready, ckpt_start,
  ckpt_done, resume_after_ckpt, restart, resume_after_restart, Cmd, ckpt_cmd, kill_cmd, success,
  Msg, closed, signalled, Event, Coord, returned, aborted, unfinished, M, pure, ◌>>=◌, ◌>>◌, emit,
  check, World, coord_send_msg, coord_recv_msg, exit_failure, exit_success, coord_exit,
}
use ckpt.Coord.Connect.{
  coord_connect_with_process_on_launch, coord_connect_with_process_on_restart, coord_atfork,
}
use ckpt.Coord.Message.{coord_send_virt_to_real, coord_send_real_to_virt}
use ckpt.Coord.Suspend.{coord_collective_prepare}
use ckpt.Coord.Barrier.{postrestart, coord_release_barrier}
use ckpt.Coord.Checkpoint.{Schedule, coord_do_checkpoint}

abbrev sigkill : ℕ
sigkill = 9

unfoldable pub coord_broadcast_kill : M (Unit {0})
coord_broadcast_kill c =
    coord_exit exit_success
      (record c { log = c.log ++ map (λ p. signalled p.real_pid sigkill) c.procs })

unfoldable pub obey : Schedule → (garbage : Msg) → Cmd → M (Unit {0})
obey s garbage ckpt_cmd = do coord_do_checkpoint s garbage; pure tt
obey s garbage kill_cmd = coord_broadcast_kill
obey s garbage _ = coord_exit exit_failure

-- `garbage` is the memory of the response before its fields are set.
unfoldable pub coord_handle_command :
    World → Schedule → (garbage : Msg) (fd : ℕ) → Msg → M (Unit {0})
coord_handle_command w s garbage fd msg = do
  obey s garbage msg.cmd
  done ← coord_send_msg w fd (record garbage { hdr = coord_ack; ret = success })
  check done

-- The write of a new out-of-band descriptor, and the query that came on it.
unfoldable pub query_on : ℕ → Msg → M (Unit {0}) → Option Proc → M (Unit {0})
query_on fd msg query none c = aborted
query_on fd msg query (some p) c =
    query
      (record c { procs = modify_by_xnd_pid (λ q. record q { oob_fd = fd }) c.procs msg.xnd_pid })

-- The first process to restart says what is restarted.
abbrev pub restarted_by : Msg → Coord → Coord
restarted_by msg c =
    if c.size == 0
    then record c {
      epoch = msg.epoch;
      num_peers = msg.num_peers;
      ckpt_interval = msg.ckpt_interval;
      xnd_uuid = msg.xnd_uuid;
    }
    else c

-- What one wait for a connection meets: the descriptor that `accept` returns, `none` where there is
-- none, and the memory that the handlers are given.
pub record Arrival : Type 0 where
  pub world : World
  pub accepted : Option ℕ
  pub garbage : Msg
  pub raw : Proc
  pub schedule : Schedule

unfoldable pub dispatch : Arrival → (fd : ℕ) → Msg → MsgHdr → M (Unit {0})
dispatch a fd msg connect_launch c =
    coord_connect_with_process_on_launch a.world a.garbage a.raw fd msg c
dispatch a fd msg connect_restart c =
    coord_connect_with_process_on_restart a.world a.garbage a.raw fd msg (restarted_by msg c)
dispatch a fd msg atfork_prepare c = coord_atfork a.world a.garbage a.raw fd msg c
dispatch a fd msg command c =
    let run : M (Unit {0}) = do
      coord_handle_command a.world a.schedule a.garbage fd msg
      (λ c'. returned tt (emit (closed fd) c'))
    in run c
dispatch a fd msg real_to_virt c =
    query_on fd msg (coord_send_real_to_virt a.world fd msg) (find_by_xnd_pid c.procs msg.xnd_pid) c
dispatch a fd msg virt_to_real c =
    query_on fd msg (coord_send_virt_to_real a.world fd msg) (find_by_xnd_pid c.procs msg.xnd_pid) c
dispatch a fd msg _ c = coord_exit exit_failure c

unfoldable pub receive_on : Arrival → (fd : ℕ) → Option Msg → M (Unit {0})
receive_on a fd none c = aborted
receive_on a fd (some msg) c = dispatch a fd msg msg.hdr c

unfoldable pub on_accepted : Arrival → Option ℕ → M (Unit {0})
on_accepted a none c = returned tt c
on_accepted a (some fd) c = receive_on a fd (coord_recv_msg a.world fd) c

unfoldable pub coord_wait_for_connection : Arrival → M (Unit {0})
coord_wait_for_connection a = on_accepted a a.accepted

-- One round of the loops of `coord_do_restart`: a connection, and whether the restarting process is
-- still alive after it.
pub record Round : Type 0 where
  pub arrival : Arrival
  pub parent_alive : Bool

-- The first loop: until there is a process.
unfoldable pub gather_first : List Round → M (Unit {0})
gather_first [] c = unfinished
gather_first (r ∷ rs) c =
    let run : M (Unit {0}) = do
      coord_wait_for_connection r.arrival
      (λ c'.
          if not (c'.size == 0)
          then returned tt c'
          else if r.parent_alive
          then gather_first rs c'
          else coord_exit exit_failure c')
    in run c

-- The second: until all peers have come.
unfoldable pub gather_peers : List Round → M (Unit {0})
gather_peers [] c = if ltb c.size c.num_peers then unfinished else returned tt c
gather_peers (r ∷ rs) c =
    let run : M (Unit {0}) = do
      coord_wait_for_connection r.arrival
      (λ c'.
          if c'.size == c'.num_peers
          then returned tt c'
          else if r.parent_alive
          then gather_peers rs c'
          else coord_exit exit_failure c')
    in if ltb c.size c.num_peers then run c else returned tt c

-- `orphaned` is `getppid() == 1`.
unfoldable pub coord_do_restart :
    (orphaned : Bool) (first rest : List Round) (prepared : List World) (resuming : World)
    (garbage : Msg)
    → M (Unit {0})
coord_do_restart orphaned first rest prepared resuming garbage =
    if orphaned then coord_exit exit_failure else (do
      gather_first first
      gather_peers rest
      total ← coord_collective_prepare prepared
      (λ c. if total == c.num_peers then returned tt c else coord_exit exit_failure c)
      released ← coord_release_barrier resuming garbage postrestart
      if released then pure tt else coord_exit exit_failure)
