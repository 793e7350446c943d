-- ===== src/Thread/Base.antt =====
-- The threads of xnd/thread_info.h as the checkpoint thread sees them, and the thread and zombie
-- lists of xnd/thread_info.c. A list has its head first.
use ckpt.Prelude.{ℕ, Bool, true, false, List, [], ◌∷◌, if◌then◌else◌, ◌==◌}
use ckpt.Peer.Base.{ThreadState, embryo}

-- Where a thread stands. `user` is the program's own code, or a wrapper's, or the end of
-- `thread_exit`; `creating c` is `__pthread_create_hook` with the child `c`; `starting` is
-- `thread_start` between the list and the state; the others are `thread_sighandler`, with the parts
-- of `thread_barrier` from `gate` to `inside`. The number at `inside` says at which checkpoint the
-- thread was counted as arrived; the code keeps no such number.
pub data Pc : Type 0 where
  user : Pc
  creating : (child : ℕ) → Pc
  starting : Pc
  saving : Pc
  gate : Pc
  opened : Pc
  inside : (round : ℕ) → Pc
  leaving : Pc

-- `gone` is what `pthread_kill` finds out: the thread has ended.
pub record Thread : Type 0 where
  pub self : ℕ
  pub state : ThreadState
  pub exiting : Bool
  pub joined : Bool
  pub gone : Bool
  pub pc : Pc

-- `thread_init`, and the new thread on its way into the list.
abbrev pub thread_init : ℕ → Thread
thread_init c = record {
  self = c;
  state = embryo;
  exiting = false;
  joined = false;
  gone = false;
  pc = starting;
}

abbrev pub thread_list_add : Thread → List Thread → List Thread
thread_list_add t threads = t ∷ threads

-- A joined thread is reaped in place of being kept.
abbrev pub zombie_list_add : Thread → List Thread → List Thread
zombie_list_add t zombies = if t.joined then zombies else t ∷ zombies

-- What `thread_list_remove` does to the zombies with the thread that it has unlinked.
abbrev pub retire : Thread → List Thread → List Thread
retire t zombies = if t.joined then zombies else zombie_list_add t zombies

abbrev pub zombie_list_filter : List Thread → List Thread
zombie_list_filter [] = []
zombie_list_filter (t ∷ ts) =
    let rest = zombie_list_filter ts in if t.joined then rest else t ∷ rest

abbrev embryonic : ThreadState → Bool
embryonic embryo = true
embryonic _ = false

-- The test of the wait in `__pthread_create_hook`, on the child `c`.
abbrev pub is_embryo : ℕ → List Thread → Bool
is_embryo c [] = false
is_embryo c (t ∷ ts) = if t.self == c then embryonic t.state else is_embryo c ts
