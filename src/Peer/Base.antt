-- ===== src/Peer/Base.antt =====
-- A thread of a process of the computation as its pid wrappers see it: the thread's own state
-- (xnd/thread_info.h), the pid table with its lock, and the connection on which the coordinator is
-- asked for ids.
pub mod Ends
use ckpt.Prelude.{
  ℕ, zero, suc, ◌+◌, ◌%◌, Bool, true, false, ◌||◌, Option, none, some, List, ◌==◌, if◌then◌else◌,
  minus_one,
}
use ckpt.Pid.Table.{Entries, PidInfo}

pub data ThreadState : Type 0 where
  embryo running signaled susp_in_prog suspended ckpt_thread unsafe : ThreadState

pub record ThreadInfo : Type 0 where
  pub state : ThreadState
  pub wrapper_depth : ℕ

-- `self` is what `thread_self_or_null` returns; `skip` is `XND_SKIP_INTERPOSE()`; `notified` holds
-- the pids that the coordinator was told of as exited.
pub record Peer : Type 0 where
  pub self : Option ThreadInfo
  pub skip : Bool
  pub info : PidInfo
  pub table : Entries
  pub table_locked : Bool
  pub oob_locked : Bool
  pub oob_fd : ℕ
  pub xnd_pid : ℕ
  pub errno : ℕ
  pub notified : List ℕ

-- How a function ends: it returns, an assertion fails, or it waits for what only another thread can
-- do: a lock to be released, or its own state to be changed.
pub data Outcome (A : Type 0) : Type 0 where
  done : A → Peer → Outcome A
  aborted : Outcome A
  waits : Outcome A

abbrev pub P : Type 0 → Type 0
P A = Peer → Outcome A

abbrev pub pure : {A : Type 0} → A → P A
pure = done

module _ {A B : Type 0} where
  abbrev pub and_then : Outcome A → (A → P B) → Outcome B
  and_then (done a p) k = k a p
  and_then aborted k = aborted
  and_then waits k = waits

  infixl 5 ◌>>=◌ ◌>>◌
  abbrev pub ◌>>=◌ : P A → (A → P B) → P B
  m >>= k = λ p. and_then (m p) k

  abbrev pub ◌>>◌ : P A → P B → P B
  m >> k = m >>= λ _. k

abbrev pub check : Bool → P (Unit {0})
check b p = if b then done tt p else aborted

abbrev pub set_errno : ℕ → P (Unit {0})
set_errno e p = done tt (record p { errno = e })

-- The states in which the thread does not take part in a suspension.
abbrev pub outside : ThreadState → Bool
outside embryo = true
outside ckpt_thread = true
outside _ = false

-- `thread_state_cas` of one thread on itself: the new state, if the old one was the expected.
abbrev pub cas_running_unsafe : ThreadState → Option ThreadState
cas_running_unsafe running = some unsafe
cas_running_unsafe _ = none

abbrev pub cas_unsafe_running : ThreadState → ThreadState
cas_unsafe_running unsafe = running
cas_unsafe_running s = s

-- The loop around the exchange ends at once, or waits for the state to become `running`.
abbrev pub enter_first : ThreadInfo → Option ThreadState → P (Unit {0})
enter_first t none p = waits
enter_first t (some s) p =
    done tt (record p { self = some (record t { state = s; wrapper_depth = 1 }) })

enter_self : Option ThreadInfo → P (Unit {0})
enter_self none p = done tt p
enter_self (some t) p =
    if outside t.state
    then done tt p
    else if t.wrapper_depth == 0
    then enter_first t (cas_running_unsafe t.state) p
    else done tt
        (record p { self = some (record t { wrapper_depth = (t.wrapper_depth + 1) % 4294967296 }) })

unfoldable pub unsafe_enter : P (Unit {0})
unfolding enter_self
unsafe_enter p = enter_self p.self p

exit_self : Option ThreadInfo → P (Unit {0})
exit_self none p = done tt p
exit_self (some t) p =
    let depth = (t.wrapper_depth + 4294967295) % 4294967296 in
    let state = if depth == 0 then cas_unsafe_running t.state else t.state in
    if outside t.state
    then done tt p
    else done tt (record p { self = some (record { state = state; wrapper_depth = depth }) })

unfoldable pub unsafe_exit : P (Unit {0})
unfolding exit_self
unsafe_exit p = exit_self p.self p

unfoldable pub pid_table_acquire : P (Unit {0})
pid_table_acquire p = if p.table_locked then waits else done tt (record p { table_locked = true })

unfoldable pub pid_table_release : P (Unit {0})
pid_table_release p = done tt (record p { table_locked = false })

unfoldable pub oob_lock : P (Unit {0})
oob_lock p = if p.oob_locked then waits else done tt (record p { oob_locked = true })

unfoldable pub oob_unlock : P (Unit {0})
oob_unlock p = done tt (record p { oob_locked = false })

-- Every write to the table holds its lock.
unfoldable pub change_table : (Entries → Entries) → P (Unit {0})
change_table f = do
  pid_table_acquire
  (λ p. done tt (record p { table = f p.table }))
  pid_table_release
