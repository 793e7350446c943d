-- ===== src/Thread/Run/Weights.antt =====
-- What a thread counts for in the runs of ckpt.Thread.Run, and where it may stand in each phase of a
-- checkpoint.
use ckpt.Prelude.{
  ℕ, ◌+◌, ◌≡◌, Bool, true, false, not, ◌&&◌, ◌||◌, List, [], ◌∷◌, if◌then◌else◌, ltb, leb, ◌==◌,
}
use ckpt.Peer.Base.{ThreadState, embryo, running, signaled, susp_in_prog, suspended, unsafe}
use ckpt.Thread.Base.{Pc, user, creating, starting, saving, gate, opened, inside, leaving, Thread}
use ckpt.Thread.Run.{
  XndState, xnd_running, xnd_ckpt_pending, xnd_susp_in_prog, xnd_ckpt_in_prog, Ckpt, idle,
  requested, arriving, writing,
}

-- Between two checkpoints, before `barrier_arrival_wait`, and from there to `barrier_release`.
pub data Phase : Type 0 where
  calm suspending gathered : Phase

abbrev pub phase : Ckpt → Phase
phase idle = calm
phase requested = calm
phase arriving = gathered
phase writing = gathered
phase _ = suspending

abbrev pub is_calm : Phase → Bool
is_calm calm = true
is_calm _ = false

abbrev pub is_suspending : Phase → Bool
is_suspending suspending = true
is_suspending _ = false

abbrev pub is_gathered : Phase → Bool
is_gathered gathered = true
is_gathered _ = false

abbrev pub xnd_at : Ckpt → XndState
xnd_at idle = xnd_running
xnd_at requested = xnd_ckpt_pending
xnd_at arriving = xnd_ckpt_in_prog
xnd_at writing = xnd_ckpt_in_prog
xnd_at _ = xnd_susp_in_prog

abbrev is_unsafe : ThreadState → Bool
is_unsafe unsafe = true
is_unsafe _ = false

abbrev is_embryo_state : ThreadState → Bool
is_embryo_state embryo = true
is_embryo_state _ = false

abbrev is_susp_in_prog : ThreadState → Bool
is_susp_in_prog susp_in_prog = true
is_susp_in_prog _ = false

abbrev pub is_suspended_state : ThreadState → Bool
is_suspended_state suspended = true
is_suspended_state _ = false

abbrev user_fits : Phase → ThreadState → Bool → Bool
user_fits p running g = true
user_fits p unsafe g = true
user_fits suspending signaled g = true
user_fits calm signaled g = g
user_fits gathered signaled g = g
user_fits p _ g = false

-- In the handler before the barrier opens.
abbrev handler_fits : Phase → Bool → Bool
handler_fits calm e = false
handler_fits suspending e = true
handler_fits gathered e = not e

abbrev opened_fits : Phase → Bool
opened_fits gathered = true
opened_fits _ = false

abbrev inside_fits : Phase → ℕ → ℕ → Bool
inside_fits suspending r ρ = ltb r ρ
inside_fits _ r ρ = leb r ρ

abbrev pub fits : Pc → Phase → ℕ → ThreadState → Bool → Bool → Bool
fits user p ρ s e g = user_fits p s g
fits (creating c) p ρ s e g = is_unsafe s && (not e && not g)
fits starting p ρ s e g = is_embryo_state s && (not e && not g)
fits saving p ρ s e g = is_susp_in_prog s && (handler_fits p e && not g)
fits gate p ρ s e g = is_suspended_state s && (handler_fits p e && not g)
fits opened p ρ s e g = is_suspended_state s && (opened_fits p && (not e && not g))
fits (inside r) p ρ s e g = is_suspended_state s && (inside_fits p r ρ && (not e && not g))
fits leaving p ρ s e g = is_suspended_state s && (not e && not g)

abbrev pub IsFit : Phase → ℕ → Thread → Type 0
IsFit p ρ t =
    (fits t.pc p ρ t.state t.exiting t.gone ≡ true)
    × (t.joined ≡ true → (t.exiting ≡ true) × (t.gone ≡ true))

abbrev pub sum : (Thread → ℕ) → List Thread → ℕ
sum w [] = 0
sum w (t ∷ ts) = w t + sum w ts

abbrev here_weight : Pc → ℕ → ℕ
here_weight (inside r) ρ = if r == ρ then 1 else 0
here_weight _ ρ = 0

-- The thread has arrived in round `ρ`.
abbrev pub present : ℕ → Thread → ℕ
present ρ t = here_weight t.pc ρ

abbrev due_weight : Pc → ℕ → ℕ
due_weight saving ρ = 1
due_weight gate ρ = 1
due_weight opened ρ = 1
due_weight (inside r) ρ = if r == ρ then 1 else 0
due_weight _ ρ = 0

-- It has arrived or is on its way to, in the handler.
abbrev pub due : ℕ → Thread → ℕ
due ρ t = if t.exiting then 0 else due_weight t.pc ρ

abbrev signal_weight : Pc → ThreadState → ℕ
signal_weight user signaled = 1
signal_weight _ _ = 0

-- It has been signalled, and has not reached the handler.
abbrev pub pending : Thread → ℕ
pending t = if t.exiting || t.gone then 0 else signal_weight t.pc t.state

-- It is at large: neither due nor exiting.
abbrev pub at_large : ℕ → Thread → ℕ
at_large ρ t = if t.exiting then 0 else if due_weight t.pc ρ == 0 then 1 else 0

abbrev pub not_due : ℕ → Thread → ℕ
not_due ρ t = if due ρ t == 0 then 1 else 0

abbrev stray_weight : Pc → ThreadState → Bool → ℕ
stray_weight user signaled g = if g then 0 else 1
stray_weight saving s g = 1
stray_weight gate s g = 1
stray_weight _ s g = 0

-- It is exiting, and the handler has it or can still get it.
abbrev pub stray : Thread → ℕ
stray t = if t.exiting then stray_weight t.pc t.state t.gone else 0

abbrev held_weight : Pc → ℕ
held_weight saving = 1
held_weight gate = 1
held_weight _ = 0

-- It is exiting, and the handler has it.
abbrev pub held : Thread → ℕ
held t = if t.exiting then held_weight t.pc else 0
