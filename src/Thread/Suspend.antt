-- ===== src/Thread/Suspend.antt =====
-- What one round of the loops of `suspend_threads` and `wait_for_exiting_threads`
-- (xnd/thread_info.c) does with the thread it has reached.
use ckpt.Prelude.{Bool, true, false, if◌then◌else◌}
use ckpt.Peer.Base.{
  ThreadState, embryo, running, signaled, susp_in_prog, suspended, ckpt_thread, unsafe,
}
use ckpt.Thread.Base.{Thread}

-- The loop goes on with the thread as it is; removes it from the list; has it counted as suspended;
-- asks for another scan, with the thread in a new state or not; or an assertion fails.
pub data Visit : Type 0 where
  passes removes counts rescans signals asserts : Visit

abbrev pub on_gone : Bool → Visit → Visit
on_gone gone v = if gone then removes else v

abbrev pub by_state : ThreadState → Bool → Visit
by_state running gone = on_gone gone signals
by_state signaled gone = on_gone gone rescans
by_state suspended gone = counts
by_state susp_in_prog gone = counts
by_state unsafe gone = rescans
by_state embryo gone = rescans
by_state ckpt_thread gone = asserts

abbrev pub is_ckpt_thread : ThreadState → Bool
is_ckpt_thread ckpt_thread = true
is_ckpt_thread _ = false

-- `thread_state_cas(th, ST_RUNNING, ST_SIGNALED)` in the scan, which holds the thread's lock.
abbrev pub signal : Thread → Thread
signal t = record t { state = signaled }

-- A thread in `ST_RUNNING` that is found to have ended has been set to `ST_SIGNALED` before.
abbrev pub struck : Thread → Thread
struck t = record t { state = elim t.state [ running ↦ signaled | s ↦ s ] }

unfoldable pub suspend_visit : Thread → Visit
suspend_visit t =
    if is_ckpt_thread t.state
    then asserts
    else if t.exiting
    then passes
    else if t.joined
    then removes
    else by_state t.state t.gone

abbrev pub is_suspended : ThreadState → Bool
is_suspended suspended = true
is_suspended susp_in_prog = true
is_suspended _ = false

-- `rescans` stands for a thread that is exiting and still alive.
unfoldable pub exit_visit : Thread → Visit
exit_visit t =
    if t.joined
    then removes
    else if t.exiting
    then on_gone t.gone rescans
    else if is_suspended t.state
    then passes
    else asserts
