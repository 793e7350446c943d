-- ===== src/Coord/Suspend.antt =====
-- How the coordinator of xnd/coordinator/xnd_coord.c waits for its processes: the filtering of dead
-- ones, `coord_collective_prepare`, and the suspension before a checkpoint. A loop that polls takes
-- the world's answers in each of its passes from a schedule.
pub mod Laws
pub mod Early
use ckpt.Prelude.{
  ℕ, suc, ◌+◌, ◌-◌, Bool, true, false, Option, none, some, List, [], ◌∷◌, ◌++◌, ◌==◌, if◌then◌else◌,
  length,
}
use ckpt.ProcList.{
  ProcState, running, recv_ckpt_request, ready_for_ckpt, ckpt_in_progress, ckpt_complete,
  restart_in_progress, exited, Proc,
}
use ckpt.Coord.Base.{
  MsgHdr, ckpt_ready, ckpt_request, success, Msg, zeroed, Event, sent, Coord, returned, unfinished,
  M, World, coord_recv_msg, proc_exit_callback, exit_failure, coord_exit,
}

-- `proc_list_remove` of the process that a walk over the list has reached; the walk itself leaves
-- it out of the list.
unfoldable pub dropped : Proc → Coord → Coord
unfolding proc_exit_callback
dropped p c = let c' = proc_exit_callback p c in record c' { size = c'.size - 1 }

-- A walk that removes the dead.
unfoldable pub filter_pass : World → List Proc → Coord → List Proc × Coord
filter_pass w [] c = ([], c)
filter_pass w (p ∷ ps) c =
    let (kept, c') = filter_pass w ps (if w.alive p.real_pid then c else dropped p c) in
    (if w.alive p.real_pid then p ∷ kept else kept, c')

unfoldable pub proc_list_filter : World → M (Unit {0})
proc_list_filter w c =
    let (kept, c') = filter_pass w c.procs c in returned tt (record c' { procs = kept })

-- The sets given to `select` hold the descriptor of each process that is left, and the answer says
-- how many are ready.
unfoldable pub coord_collective_prepare : List World → M ℕ
coord_collective_prepare [] c = unfinished
coord_collective_prepare (w ∷ ws) c =
    let (kept, c') = filter_pass w c.procs c in
    let total = length kept in
    let c'' = record c' { procs = kept } in
    let again = coord_collective_prepare ws c'' in
    elim (w.selected) [
      | none ↦ coord_exit exit_failure c''
      | some err ↦ if err == total then returned total c'' else again
    ]

abbrev pub is_ckpt_ready : MsgHdr → Bool
is_ckpt_ready ckpt_ready = true
is_ckpt_ready _ = false

abbrev pub answers_ready : Option Msg → Bool
answers_ready none = false
answers_ready (some resp) = is_ckpt_ready resp.hdr

abbrev request : Msg
request = zeroed ckpt_request success

-- The switch on the state of a process: its next state, and how much it adds to `ready`.
unfoldable pub suspend_visit : World → Proc → ProcState → ProcState × ℕ × List Event
unfolding coord_recv_msg
suspend_visit w p running =
    if w.writable p.fd then (recv_ckpt_request, 0, sent p.fd request ∷ []) else (running, 0, [])
suspend_visit w p recv_ckpt_request =
    if answers_ready (coord_recv_msg w p.fd)
    then (ready_for_ckpt, 1, [])
    else (recv_ckpt_request, 0, [])
suspend_visit w p ready_for_ckpt = (ready_for_ckpt, 1, [])
suspend_visit w p other = (other, 0, [])

pub record Pass : Type 0 where
  pub kept : List Proc
  pub ready : ℕ
  pub total : ℕ
  pub coord : Coord

unfoldable pub suspend_pass : World → List Proc → Coord → Pass
suspend_pass w [] c = record { kept = []; ready = 0; total = 0; coord = c }
suspend_pass w (p ∷ ps) c =
    let (state, one, events) = suspend_visit w p p.state in
    let p' = record p { state = state } in
    let c' = record c { log = c.log ++ events } in
    let here = w.alive p.real_pid in
    let rest = suspend_pass w ps (if here then c' else dropped p' c') in
    record {
      kept = if here then p' ∷ rest.kept else rest.kept;
      ready = one + rest.ready;
      total = if here then suc rest.total else rest.total;
      coord = rest.coord;
    }

unfoldable pub coord_suspend_processes : List World → M (Unit {0})
coord_suspend_processes [] c = unfinished
coord_suspend_processes (w ∷ ws) c =
    let pass = suspend_pass w c.procs c in
    let c' = record pass.coord { procs = pass.kept } in
    let again = coord_suspend_processes ws c' in
    if pass.ready == pass.total then returned tt c' else again
