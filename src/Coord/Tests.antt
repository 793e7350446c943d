-- ===== src/Coord/Tests.antt =====
-- The coordinator's theorems at concrete states, for xnd/coordinator/xnd_coord.c.
use ckpt.Prelude.{ℕ, ◌≡◌, refl, true, false, Option, none, some, [], ◌∷◌, ◌==◌, map, arith}
use ckpt.ProcList.{ProcState, recv_ckpt_request, ready_for_ckpt, find_by_real_pid}
use ckpt.Coord.Base.{
  MsgHdr, ckpt_ready, ckpt_done, coord_ack, Msg, Coord, Run, returned, aborted, World,
  coord_send_msg, coord_recv_msg,
}
use ckpt.Coord.Base.Ends.{Ends}
use ckpt.Coord.Suspend.{
  filter_pass, coord_collective_prepare, suspend_visit, suspend_pass, coord_suspend_processes,
}
use ckpt.Coord.Suspend.Laws.{in_state, suspend_ready}
use ckpt.Coord.Suspend.Early.{suspend_terminates, suspend_early}
use ckpt.Coord.Barrier.{preckpt, release_walk, coord_release_barrier}
use ckpt.Coord.Barrier.Laws.{logged, barrier_events, advance, release_barrier_lem}
use ckpt.Coord.Checkpoint.{
  Report, complete, coord_determine_roots, completion_walk, coord_wait_for_ckpt_completions,
  coord_write_ckpt_manifest, finish_epoch, take_checkpoint, coord_do_checkpoint,
}
use ckpt.Coord.Checkpoint.Complete.{IsComplete, do_checkpoint_complete}
use ckpt.Coord.Checkpoint.Rounds.{IsHelpful}
use ckpt.Coord.Checkpoint.Live.{Helpers, schedule_of, do_checkpoint_returns}
use ckpt.Coord.Serve.{Round, coord_do_restart}
use ckpt.Coord.Serve.Restart.{IsResumed, do_restart_resumes}
use ckpt.Coord.Samples.{blank, leader, child, two, answering, smooth, returning}

abbrev in_states : ProcState → ProcState → Coord
in_states s t = record two { procs = record child { state = s } ∷ record leader { state = t } ∷ [] }

-- How a run ends, and in which epoch.
abbrev outcome : Run Report → Option (Report × ℕ)
outcome (returned r c) = some (r, c.epoch)
outcome _ = none

smooth_checkpoint : outcome (coord_do_checkpoint smooth blank two) ≡ some (complete, 1)
unfolding coord_do_checkpoint coord_collective_prepare filter_pass coord_suspend_processes
    suspend_pass suspend_visit take_checkpoint coord_determine_roots find_by_real_pid
    coord_release_barrier release_walk coord_wait_for_ckpt_completions completion_walk
    coord_write_ckpt_manifest finish_epoch coord_send_msg coord_recv_msg
smooth_checkpoint = refl

do_checkpoint_complete_example :
    Ends (λ r c'. r ≡ complete → IsComplete 0 c') (coord_do_checkpoint smooth blank two)
do_checkpoint_complete_example = do_checkpoint_complete smooth blank two

-- The same worlds, in a schedule of their own.
abbrev helpers : Helpers
helpers = record {
  first = answering coord_ack;
  asked = answering coord_ack;
  answered = answering ckpt_ready;
  start = answering coord_ack;
  starting = answering coord_ack;
  finish = answering coord_ack;
  finishing = answering ckpt_done;
  resuming = answering coord_ack;
}

answering-IsHelpful : (hdr : MsgHdr) → IsHelpful 2 (answering hdr)
answering-IsHelpful hdr = record { alive = λ pid. refl; writable = λ fd. refl; selected = refl }

do_checkpoint_returns_example :
    (c' : Coord) × (coord_do_checkpoint (schedule_of helpers) blank two ≡ returned complete c')
    × IsComplete 0 c'
unfolding coord_recv_msg
do_checkpoint_returns_example =
    do_checkpoint_returns helpers blank two
      (record {
        first = answering-IsHelpful coord_ack;
        asked = answering-IsHelpful coord_ack;
        answered = answering-IsHelpful ckpt_ready;
        start = answering-IsHelpful coord_ack;
        starting = answering-IsHelpful coord_ack;
        finish = answering-IsHelpful coord_ack;
        resuming = answering-IsHelpful coord_ack;
        ready = λ fd. refl;
        finished = λ fd. refl;
      })
      (refl, (refl, tt)) refl (omega arith) (omega arith)

suspend_ready_example :
    Ends
      (λ _ c'.
        (c'.procs ≡ map (in_state ready_for_ckpt) two.procs)
        × (c'.table ≡ two.table)
        × (c'.size ≡ two.size)
        × (c'.next_virt_pid ≡ two.next_virt_pid)
        × (c'.next_xnd_pid ≡ two.next_xnd_pid))
      (coord_suspend_processes smooth.suspending two)
suspend_ready_example = suspend_ready smooth.suspending two ((λ pid. refl), ((λ pid. refl), tt))

suspend_terminates_example :
    (c' : Coord) × (coord_suspend_processes smooth.suspending two ≡ returned tt c')
    × (c'.procs ≡ map (in_state ready_for_ckpt) two.procs)
suspend_terminates_example =
    suspend_terminates (answering coord_ack) (answering ckpt_ready) [] two (λ pid. refl)
      (λ pid. refl) tt (λ fd. refl) (λ fd. refl) (refl, (refl, tt))

-- The child is ready and dies; the leader has been asked and has not answered.
abbrev child_dies : World
child_dies = record (answering coord_ack) { incoming = λ fd. none; alive = λ pid. pid == 700 }

suspend_early_example :
    (c' : Coord) × (coord_suspend_processes
        (child_dies ∷ [])
        (in_states ready_for_ckpt recv_ckpt_request)
      ≡ returned tt c')
    × (c'.procs ≡ record leader { state = recv_ckpt_request } ∷ [])
    × ((w' : World) (garbage : Msg) → coord_release_barrier w' garbage preckpt c' ≡ aborted)
suspend_early_example =
    suspend_early child_dies [] (in_states ready_for_ckpt recv_ckpt_request)
      (record child { state = ready_for_ckpt }) (record leader { state = recv_ckpt_request }) refl
      refl refl refl refl refl

release_barrier_lem_example :
    coord_release_barrier
      (answering coord_ack)
      blank
      preckpt
      (in_states ready_for_ckpt ready_for_ckpt)
    ≡ returned true
        (record (logged
          (barrier_events preckpt blank 2 (in_states ready_for_ckpt ready_for_ckpt).procs)
          (in_states ready_for_ckpt ready_for_ckpt)) {
            procs = map (advance preckpt) (in_states ready_for_ckpt ready_for_ckpt).procs;
          })
release_barrier_lem_example =
    release_barrier_lem preckpt (answering coord_ack) blank
      (in_states ready_for_ckpt ready_for_ckpt) (refl, (refl, tt)) (refl, (refl, tt))

-- A computation of one process restarts.
abbrev nobody : Coord
nobody = record two { procs = []; size = 0; num_peers = 0; table = [] }

abbrev restarting : Round
restarting = record {
  arrival = record {
    world = record (answering coord_ack) {
      incoming = λ fd. some (record returning { num_peers = 1 });
      selected = some 1;
    };
    accepted = some 7;
    garbage = blank;
    raw = leader;
    schedule = smooth;
  };
  parent_alive = true;
}

do_restart_resumes_example :
    Ends
      (λ _. IsResumed)
      (coord_do_restart false
        (restarting ∷ [])
        []
        (restarting.arrival.world ∷ [])
        (answering coord_ack)
        blank
        nobody)
do_restart_resumes_example =
    do_restart_resumes false (restarting ∷ []) [] (restarting.arrival.world ∷ [])
      (answering coord_ack) blank nobody
