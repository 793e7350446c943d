-- ===== src/Thread/Run/Checkpoint.antt =====
-- What the runs of ckpt.Thread.Run show about a checkpoint.
use ckpt.Prelude.{ℕ, ◌≡◌, ◌≢◌, refl, Bool, List, [], All, All-map, arith}
use ckpt.Peer.Base.{susp_in_prog, suspended, embryo, unsafe}
use ckpt.Thread.Base.{Pc, user, creating, starting, saving, gate, opened, inside, leaving, Thread}
use ckpt.Thread.Run.{
  XndState, Ckpt, writing, System, Turned, here, there, Creates, this, later, Step, works,
  turn_seen, turn_unseen, add, Reach, ckpt_step,
}
use ckpt.Thread.Run.Weights.{phase, present, IsFit}
use ckpt.Thread.Run.Parked.{Parked}
use ckpt.Thread.Run.Work.{writing-Parked}
use ckpt.Thread.Run.Turns.{Turned-moves}
use ckpt.Thread.Run.Safety.{rest, Reach-Inv}

-- In every run, while the checkpoint thread writes the checkpoint, every thread of the thread list
-- is suspended, is not exiting, has saved itself and waits inside `thread_barrier` in the round of
-- this checkpoint.
pub checkpoint-Parked :
    {main : ℕ} {s : System} → Reach main s → s.work ≡ writing → All (Parked s.round) s.seen
checkpoint-Parked {s} r e = let inv = Reach-Inv r in writing-Parked (rest s s inv e refl).holds

-- The state that the exchanges of `thread_sighandler` expect, and the like, where a thread
-- stands.
abbrev pub Expects : Pc → Thread → Type 0
Expects (creating c) t = t.state ≡ unsafe
Expects starting t = t.state ≡ embryo
Expects saving t = t.state ≡ susp_in_prog
Expects gate t = t.state ≡ suspended
Expects opened t = t.state ≡ suspended
Expects (inside r) t = t.state ≡ suspended
Expects leaving t = t.state ≡ suspended
Expects user t = Unit

fit-Expects : (w : Ckpt) (ρ : ℕ) (t : Thread) → IsFit (phase w) ρ t → Expects t.pc t
fit-Expects w ρ t f = ground (arith, f.0)

-- In every run, each thread before and behind the place of a scan has the state that the code
-- expects where the thread stands: ST_UNSAFE while it creates a thread, ST_EMBRYO before it starts,
-- and in `thread_sighandler` ST_SUSPINPROG until it exchanges it for ST_SUSPENDED, and ST_SUSPENDED
-- from there until it exchanges it for ST_RUNNING, so that these two asserted exchanges succeed. The
-- first exchange of the handler, from ST_SIGNALED, is a condition of the step that takes a signal,
-- and is not covered.
pub exchanges_succeed :
    {main : ℕ} {s : System}
    → Reach main s
    → All (λ t. Expects t.pc t) s.seen × All (λ t. Expects t.pc t) s.unseen
exchanges_succeed {s} r =
    let h = (Reach-Inv r).holds in
    (
      All-map _ _ s.seen (fit-Expects s.work s.round) h.fit_seen,
      All-map _ _ s.unseen (fit-Expects s.work s.round) h.fit_unseen,
    )

Parked-present : (ρ : ℕ) (t : Thread) → Parked ρ t → present ρ t ≡ 1
Parked-present ρ t p = ground (arith, p.pc)

Parked-Creates : (ρ : ℕ) {c : ℕ} {ts : List Thread} → Creates c ts → All (Parked ρ) ts → ⊥
Parked-Creates ρ (this e) p = cc (p.0.pc)
Parked-Creates ρ (later m) p = Parked-Creates ρ m p.1

turn_unseen_none :
    {ρ k : ℕ} {x : XndState} {E : ℕ → Bool} {ts us : List Thread} → Turned x ρ E ts us k → ts ≢ []
turn_unseen_none (here m) e = cc
turn_unseen_none (there m) e = cc

-- In every run, no step that is taken while the checkpoint thread writes the checkpoint changes a
-- thread, the thread list or the zombies.
pub checkpoint_stable :
    {main : ℕ} {s s' : System}
    → Reach main s
    → s.work ≡ writing
    → Step s s'
    → (s'.seen ≡ s.seen) × (s'.unseen ≡ s.unseen) × (s'.zombies ≡ s.zombies)
unfolding ckpt_step
checkpoint_stable {s} r e (works m) = ground arith
checkpoint_stable {s} r e (turn_seen m) =
    let inv = Reach-Inv r in
    let at = rest s s inv e refl in
    absurd (
      Turned-moves writing (rw at.xnd at m) refl at.holds.fit_seen
        (All-map _ _ s.seen (Parked-present s.round) (checkpoint-Parked r e)))
checkpoint_stable {s} r e (turn_unseen m) =
    absurd (turn_unseen_none m (rest s s (Reach-Inv r) e refl).left)
checkpoint_stable {s} r e (add l m) = absurd (Parked-Creates s.round m (checkpoint-Parked r e))
