-- ===== src/Thread/Run.antt =====
-- The runs of a process under checkpoints: its threads and the checkpoint thread, in any order.
pub mod Weights
pub mod Turns
pub mod Invariant
pub mod Scan
pub mod Visits
pub mod At
pub mod Suspending
pub mod Reaping
pub mod Parked
pub mod Work
pub mod Safety
pub mod Checkpoint
pub mod Stuck
use ckpt.Prelude.{
  ℕ, suc, ◌+◌, ◌≡◌, ◌≢◌, Bool, true, false, Option, none, some, List, [], ◌∷◌, ◌++◌, if◌then◌else◌,
  leb, ◌==◌,
}
use ckpt.Peer.Base.{
  ThreadState, embryo, running, signaled, susp_in_prog, suspended, ckpt_thread, unsafe,
}
use ckpt.Thread.Base.{
  Pc, user, creating, starting, saving, gate, opened, inside, leaving, Thread, thread_init,
  thread_list_add, retire, is_embryo,
}
use ckpt.Thread.Suspend.{
  Visit, passes, removes, counts, rescans, signals, asserts, signal, struck, suspend_visit,
  exit_visit,
}

pub data XndState : Type 0 where
  xnd_running xnd_ckpt_pending xnd_susp_in_prog xnd_ckpt_in_prog : XndState

-- Where the checkpoint thread stands in `ckpt_thread_work`: waiting for a request; past the first
-- barrier of the coordinator; at `again`; in the scan, with the thread list locked; at the head of
-- the loop of `wait_for_exiting_threads`; in its scan; before, in and past `barrier_arrival_wait`.
pub data Ckpt : Type 0 where
  idle requested again : Ckpt
  scanning : (suspended : ℕ) (rescan : Bool) → Ckpt
  exits : Ckpt
  reaping : (exiting killed : ℕ) → Ckpt
  settled arriving writing aborted : Ckpt

-- In a scan `seen` holds the threads before its place and `unseen` the others; outside a scan
-- `seen` is the whole thread list. `round` counts the calls of `suspend_threads`; the code does not.
pub record System : Type 0 where
  pub seen : List Thread
  pub unseen : List Thread
  pub zombies : List Thread
  pub xnd : XndState
  pub arrived : ℕ
  pub expected : ℕ
  pub round : ℕ
  pub work : Ckpt

-- One step of one thread: `x` is the state of the library, `ρ` the round, `E` tells whether a
-- listed child is an embryo, and the number is what the step adds to `threads_arrived`.
pub data Turn (x : XndState) (ρ : ℕ) (E : ℕ → Bool) (t : Thread) : Thread → ℕ → Type 0 where
  enter :
      t.pc ≡ user
      → t.gone ≡ false
      → t.exiting ≡ false
      → t.state ≡ running
      → Turn x ρ E t (record t { state = unsafe }) 0
  leave :
      t.pc ≡ user
      → t.gone ≡ false
      → t.state ≡ unsafe
      → Turn x ρ E t (record t { state = running }) 0
  create :
      {c : ℕ}
      → t.pc ≡ user
      → t.gone ≡ false
      → t.exiting ≡ false
      → t.state ≡ unsafe
      → Turn x ρ E t (record t { pc = creating c }) 0
  created : {c : ℕ} → t.pc ≡ creating c → E c ≡ false → Turn x ρ E t (record t { pc = user }) 0
  start : t.pc ≡ starting → Turn x ρ E t (record t { state = running; pc = user }) 0
  exit :
      t.pc ≡ user → t.gone ≡ false → t.state ≢ unsafe → Turn x ρ E t (record t { exiting = true }) 0
  die : t.pc ≡ user → Turn x ρ E t (record t { gone = true }) 0
  join : t.exiting ≡ true → t.gone ≡ true → Turn x ρ E t (record t { joined = true }) 0
  interrupt :
      t.pc ≡ user
      → t.gone ≡ false
      → t.state ≡ signaled
      → Turn x ρ E t (record t { state = susp_in_prog; pc = saving }) 0
  save : t.pc ≡ saving → Turn x ρ E t (record t { state = suspended; pc = gate }) 0
  pass : t.pc ≡ gate → x ≢ xnd_susp_in_prog → Turn x ρ E t (record t { pc = opened }) 0
  arrive : t.pc ≡ opened → Turn x ρ E t (record t { pc = inside ρ }) 1
  release :
      {r : ℕ} → t.pc ≡ inside r → x ≢ xnd_ckpt_in_prog → Turn x ρ E t (record t { pc = leaving }) 0
  resume : t.pc ≡ leaving → Turn x ρ E t (record t { state = running; pc = user }) 0

-- One thread of a list takes a step.
pub data Turned (x : XndState) (ρ : ℕ) (E : ℕ → Bool) : List Thread → List Thread → ℕ → Type 0 where
  here :
      {t t' : Thread} {ts : List Thread} {k : ℕ}
      → Turn x ρ E t t' k
      → Turned x ρ E (t ∷ ts) (t' ∷ ts) k
  there :
      {t : Thread} {ts us : List Thread} {k : ℕ}
      → Turned x ρ E ts us k
      → Turned x ρ E (t ∷ ts) (t ∷ us) k

-- The scan of `suspend_threads` at the thread `t`, with `ts` behind it.
abbrev pub on_scan : Visit → Thread → List Thread → ℕ → Bool → System → System
on_scan passes t ts n re s = record s { seen = s.seen ++ (t ∷ []); unseen = ts }
on_scan removes t ts n re s = record s { unseen = ts; zombies = retire (struck t) s.zombies }
on_scan counts t ts n re s = record s {
  seen = s.seen ++ (t ∷ []);
  unseen = ts;
  work = scanning (suc n) re;
}
on_scan rescans t ts n re s = record s {
  seen = s.seen ++ (t ∷ []);
  unseen = ts;
  work = scanning n true;
}
on_scan signals t ts n re s = record s {
  seen = s.seen ++ (signal t ∷ []);
  unseen = ts;
  work = scanning n true;
}
on_scan asserts t ts n re s = record s { work = aborted }

-- The end of a scan, and the next thread.
abbrev pub scan : ℕ → Bool → List Thread → System → System
scan n re [] s = if re then record s { work = again } else record s { expected = n; work = exits }
scan n re (t ∷ ts) s = on_scan (suspend_visit t) t ts n re s

-- A removed thread counts as killed only if it was not joined.
abbrev pub on_reap : Visit → Thread → List Thread → ℕ → ℕ → System → System
on_reap removes t ts e k s =
    let more = if t.joined then 0 else 1 in
    record s { unseen = ts; zombies = retire t s.zombies; work = reaping (e + more) (k + more) }
on_reap rescans t ts e k s = record s {
  seen = s.seen ++ (t ∷ []);
  unseen = ts;
  work = reaping (suc e) k;
}
on_reap asserts t ts e k s = record s { work = aborted }
on_reap _ t ts e k s = record s { seen = s.seen ++ (t ∷ []); unseen = ts }

abbrev pub reap_next : ℕ → ℕ → List Thread → System → System
reap_next e k [] s = if e == k then record s { work = settled } else record s { work = exits }
reap_next e k (t ∷ ts) s = on_reap (exit_visit t) t ts e k s

-- The next step of the checkpoint thread; `none` where it has to wait, or has aborted.
abbrev pub ckpt_work : Ckpt → System → Option System
ckpt_work idle s = some (record s { xnd = xnd_ckpt_pending; work = requested })
ckpt_work requested s =
    some (record s { xnd = xnd_susp_in_prog; arrived = 0; round = suc s.round; work = again })
ckpt_work again s = some (record s { seen = []; unseen = s.seen; work = scanning 0 false })
ckpt_work (scanning n re) s = some (scan n re s.unseen s)
ckpt_work exits s = some (record s { seen = []; unseen = s.seen; work = reaping 0 0 })
ckpt_work (reaping e k) s = some (reap_next e k s.unseen s)
ckpt_work settled s = some (record s { xnd = xnd_ckpt_in_prog; work = arriving })
ckpt_work arriving s = if leb s.expected s.arrived then some (record s { work = writing }) else none
ckpt_work writing s = some (record s { xnd = xnd_running; work = idle })
ckpt_work aborted s = none

unfoldable pub ckpt_step : System → Option System
ckpt_step s = ckpt_work s.work s

-- Whether the checkpoint thread holds the lock of the thread list.
abbrev pub locks_list : Ckpt → Bool
locks_list (scanning _ _) = true
locks_list (reaping _ _) = true
locks_list aborted = true
locks_list _ = false

abbrev pub embryos : System → ℕ → Bool
embryos s c = is_embryo c (s.seen ++ s.unseen)

pub data Creates (c : ℕ) : List Thread → Type 0 where
  this : {t : Thread} {ts : List Thread} → t.pc ≡ creating c → Creates c (t ∷ ts)
  later : {t : Thread} {ts : List Thread} → Creates c ts → Creates c (t ∷ ts)

pub data Step (s : System) : System → Type 0 where
  works : {s' : System} → ckpt_step s ≡ some s' → Step s s'
  turn_seen :
      {ts : List Thread} {k : ℕ}
      → Turned s.xnd s.round (embryos s) s.seen ts k
      → Step s (record s { seen = ts; arrived = s.arrived + k })
  turn_unseen :
      {ts : List Thread} {k : ℕ}
      → Turned s.xnd s.round (embryos s) s.unseen ts k
      → Step s (record s { unseen = ts; arrived = s.arrived + k })
  add :
      {c : ℕ}
      → locks_list s.work ≡ false
      → Creates c s.seen
      → Step s (record s { seen = thread_list_add (thread_init c) s.seen })

-- `thread_list_init`, with the main thread `main`.
abbrev pub init : ℕ → System
init main = record {
  seen = record (thread_init main) { state = running; pc = user } ∷ [];
  unseen = [];
  zombies = [];
  xnd = xnd_running;
  arrived = 0;
  expected = 0;
  round = 0;
  work = idle;
}

pub data Reach (main : ℕ) : System → Type 0 where
  initial : Reach main (init main)
  step : {s t : System} → Reach main s → Step s t → Reach main t
