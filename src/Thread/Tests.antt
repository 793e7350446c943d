-- ===== src/Thread/Tests.antt =====
-- Runs of one and of two threads under a checkpoint, and the theorems at them.
use ckpt.Prelude.{ℕ, zero, suc, ◌≡◌, ◌≢◌, refl, true, Option, none, some, [], ◌∷◌, All, arith}
use ckpt.Peer.Base.{signaled, unsafe}
use ckpt.Thread.Base.{Thread}
use ckpt.Thread.Suspend.{suspend_visit, exit_visit}
use ckpt.Thread.Run.{
  xnd_running, xnd_susp_in_prog, xnd_ckpt_in_prog, idle, System, Turned, here, interrupt, exit,
  save, pass, arrive, works, turn_seen, embryos, init, Reach, initial, step, ckpt_step,
}
use ckpt.Thread.Run.Parked.{Parked}
use ckpt.Thread.Run.Checkpoint.{Expects, checkpoint-Parked, exchanges_succeed, checkpoint_stable}
use ckpt.Thread.Run.Stuck.{waits_for_exits, now, onward, exits_stuck}

pub record Run : Type 0 where
  pub last : System
  pub reach : Reach 7 last

advance : (r : Run) (o : Option System) → ckpt_step r.last ≡ o → Run
advance r none e = r
advance r (some s) e = record { last = s; reach = step r.reach (works e) }

-- `n` steps of the checkpoint thread, or fewer when it waits.
unfoldable work : ℕ → Run → Run
unfolding advance
work zero r = r
work (suc n) r = let next = advance r (ckpt_step r.last) refl in work n next

abbrev begun : Run
begun = record { last = init 7; reach = initial }

-- One step of the only thread, between two scans or before the first visit of one.
moved :
    (r : Run) {t : Thread} {k : ℕ}
    → Turned r.last.xnd r.last.round (embryos r.last) r.last.seen (t ∷ []) k
    → Run
moved r m = record { last = _; reach = step r.reach (turn_seen m) }

signaled-ne-unsafe : signaled ≢ unsafe
signaled-ne-unsafe e = cc

in_prog-ne : xnd_ckpt_in_prog ≢ xnd_susp_in_prog
in_prog-ne e = cc

-- The thread has the signal, and the scan is over.
abbrev signalled : Run
signalled = work 5 begun

abbrev caught : Run
unfolding moved work advance ckpt_step suspend_visit exit_visit
caught = moved (moved signalled (here (interrupt refl refl refl))) (here (save refl))

-- The first checkpoint, up to the wait for the arrival of the thread.
abbrev waiting : Run
waiting = work 9 caught

abbrev stopped : Run
unfolding moved work advance ckpt_step suspend_visit exit_visit
stopped = work 1 (moved (moved waiting (here (pass refl in_prog-ne))) (here (arrive refl)))

checkpoint-Parked_example : All (Parked 1) stopped.last.seen
unfolding moved work advance ckpt_step suspend_visit exit_visit
checkpoint-Parked_example = checkpoint-Parked stopped.reach refl

exchanges_succeed_example :
    All (λ t. Expects t.pc t) caught.last.seen × All (λ t. Expects t.pc t) caught.last.unseen
exchanges_succeed_example = exchanges_succeed caught.reach

checkpoint_stable_example :
    let over : System = record stopped.last { xnd = xnd_running; work = idle } in
    (over.seen ≡ stopped.last.seen)
    × (over.unseen ≡ stopped.last.unseen)
    × (over.zombies ≡ stopped.last.zombies)
unfolding moved work advance ckpt_step suspend_visit exit_visit
checkpoint_stable_example = checkpoint_stable stopped.reach refl (works refl)

-- The thread takes the signal while it is exiting; the next scan passes it over.
abbrev lost : Run
unfolding moved work advance ckpt_step suspend_visit exit_visit
lost = work 3 (
    moved (moved signalled (here (exit refl refl (λ e. signaled-ne-unsafe e))))
      (here (interrupt refl refl refl)))

exits_stuck_example : waits_for_exits (work 1 lost).last.work ≡ true
unfolding moved work advance ckpt_step suspend_visit exit_visit
exits_stuck_example = exits_stuck lost.reach refl (omega arith) (onward now (works refl))
