-- ===== src/Client.antt =====
-- The connection of a process to the coordinator (xnd/coordinator/xnd_coord_client.c): the
-- handshakes, the wait for a checkpoint, the barriers, the fork and the end.
pub mod Agree
pub mod Fork
mod Tests
use ckpt.Prelude.{
  ℕ, Bool, true, false, not, Option, none, some, List, [], ◌∷◌, ◌++◌, ◌==◌, if◌then◌else◌, leb,
  minus_one,
}
use ckpt.Coord.Base.{
  MsgHdr, connect_launch, connect_restart, exit_msg, atfork_prepare, atfork_child, coord_ack,
  ckpt_request, ckpt_ready, ckpt_start, ckpt_done, resume_after_ckpt, resume_after_restart,
  CoordReturn, success, failure, Msg, zeroed,
}
use ckpt.Coord.Barrier.{BarrierType, preckpt, postckpt, postrestart}

-- The variables that the functions read and write, and the messages they have sent. `real_pid` and
-- `real_ppid` are what `_real_getpid` and `_real_getppid` return, and `own_pid` is `_real_pid`.
-- `asked_pid` is the virtual pid in the environment variable that `env_set_pid_info` sets.
pub record Client : Type 0 where
  pub coord_fd : ℕ
  pub child_coord_fd : ℕ
  pub oob_fd : ℕ
  pub oob_locked : Bool
  pub real_pid : ℕ
  pub real_ppid : ℕ
  pub own_pid : ℕ
  pub virt_pid : ℕ
  pub virt_ppid : ℕ
  pub xnd_pid : ℕ
  pub xnd_ppid : ℕ
  pub xnd_pgid : ℕ
  pub xnd_uuid : ℕ
  pub epoch : ℕ
  pub num_peers : ℕ
  pub is_root_of_tree : Bool
  pub ckpt_interval : ℕ
  pub asked_pid : ℕ
  pub sent : List Msg

-- What the process meets: `connect_to_coord`, whether a message goes out, what is received after it,
-- and `dup2` onto XND_COORD_FD.
pub record Server : Type 0 where
  pub connect_to_coord : ℕ
  pub sends : Msg → Bool
  pub receives : List Msg → Option Msg
  pub moves : Bool

-- A function returns, aborts the process, or waits for a lock.
pub data Result (A : Type 0) : Type 0 where
  ok : A → Client → Result A
  aborts : Result A
  waits : Result A

abbrev pub C : Type 0 → Type 0
C A = Client → Result A

module _ {A B : Type 0} where
  abbrev pub and_then : Result A → (A → C B) → Result B
  and_then (ok a c) k = k a c
  and_then aborts k = aborts
  and_then waits k = waits

  infixl 5 ◌>>=◌ ◌>>◌
  abbrev pub ◌>>=◌ : C A → (A → C B) → C B
  m >>= k = λ c. and_then (m c) k

  abbrev pub ◌>>◌ : C A → C B → C B
  m >> k = m >>= λ _. k

abbrev pub require : Bool → C (Unit {0})
require b c = if b then ok tt c else aborts

abbrev pub modify : (Client → Client) → C (Unit {0})
modify f c = ok tt (f c)

-- `send_msg_to_coord`, with its result tested.
abbrev pub send : Server → Msg → C Bool
send w msg c =
    if w.sends msg then ok true (record c { sent = c.sent ++ (msg ∷ []) }) else ok false c

abbrev pub recv : Server → C (Option Msg)
recv w c = ok (w.receives c.sent) c

abbrev is_ack : MsgHdr → CoordReturn → Bool
is_ack coord_ack success = true
is_ack _ _ = false

-- `some` is an answer that acknowledges; anything else aborts.
abbrev pub acknowledged : Option Msg → C Msg
acknowledged none c = aborts
acknowledged (some msg) c = if is_ack msg.hdr msg.ret then ok msg c else aborts

-- A message sent that has to go out, and its answer that has to acknowledge it.
unfoldable pub ask : Server → Msg → C Msg
ask w msg = do done ← send w msg; require done; answer ← recv w; acknowledged answer

abbrev pub hello : MsgHdr → Client → Msg
hello hdr c = record (zeroed hdr success) { real_pid = c.real_pid; real_ppid = c.real_ppid }

abbrev pub handshake_request : MsgHdr → Client → Msg
handshake_request connect_restart c = record (hello connect_restart c) {
  virt_pid = c.virt_pid;
  virt_ppid = c.virt_ppid;
  xnd_pid = c.xnd_pid;
  xnd_ppid = c.xnd_ppid;
  xnd_pgid = c.xnd_pgid;
  xnd_uuid = c.xnd_uuid;
  ckpt_interval = c.ckpt_interval;
  epoch = c.epoch;
  num_peers = c.num_peers;
}
handshake_request hdr c = hello hdr c

abbrev learn : Msg → Client → Client
learn msg c = record c {
  virt_pid = msg.virt_pid;
  virt_ppid = msg.virt_ppid;
  xnd_pid = msg.xnd_pid;
  xnd_ppid = msg.xnd_ppid;
  xnd_pgid = msg.xnd_pgid;
  xnd_uuid = msg.xnd_uuid;
}

abbrev pub after_handshake : MsgHdr → Msg → Client → Client
after_handshake connect_launch msg c = learn msg c
after_handshake atfork_child msg c = learn msg c
after_handshake _ msg c = c

unfoldable pub send_recv_coord_handshake : Server → MsgHdr → C (Unit {0})
send_recv_coord_handshake w hdr c =
    and_then (ask w (handshake_request hdr c) c) (λ msg. modify (after_handshake hdr msg))

abbrev pub coord_fd_number : ℕ
coord_fd_number = 210

abbrev pub is_negative : ℕ → Bool
is_negative n = leb 2147483648 n

-- `xnd_fd_change(fd, XND_COORD_FD)` asserts that dup2 succeeds.
abbrev pub take_fd : Server → ℕ → C (Unit {0})
take_fd w fd c =
    if fd == coord_fd_number
    then ok tt (record c { coord_fd = fd })
    else if w.moves
    then ok tt (record c { coord_fd = coord_fd_number })
    else aborts

unfoldable pub connect_to_coord_on_launch : Server → C (Unit {0})
unfolding send_recv_coord_handshake
connect_to_coord_on_launch w = do
  require (not (is_negative w.connect_to_coord))
  take_fd w w.connect_to_coord
  send_recv_coord_handshake w connect_launch

unfoldable pub connect_to_coord_on_restart : Server → C (Unit {0})
unfolding send_recv_coord_handshake
connect_to_coord_on_restart w = do
  require (not (is_negative w.connect_to_coord))
  take_fd w w.connect_to_coord
  send_recv_coord_handshake w connect_restart
  modify (λ c. record c { oob_fd = minus_one })

abbrev is_ckpt_request : MsgHdr → Bool
is_ckpt_request ckpt_request = true
is_ckpt_request _ = false

abbrev requested : Option Msg → Bool
requested none = false
requested (some msg) = is_ckpt_request msg.hdr

-- `true` is the return value 0.
unfoldable pub wait_for_ckpt_request_from_coord : Server → C Bool
wait_for_ckpt_request_from_coord w = do msg ← recv w; ok (requested msg)

abbrev barrier_accepts : BarrierType → MsgHdr → Bool
barrier_accepts preckpt ckpt_start = true
barrier_accepts postckpt resume_after_ckpt = true
barrier_accepts postrestart resume_after_restart = true
barrier_accepts _ _ = false

-- What is sent on the way into a barrier. `garbage` is the memory of the message.
abbrev pub barrier_hdr : BarrierType → Option MsgHdr
barrier_hdr preckpt = some ckpt_ready
barrier_hdr postckpt = some ckpt_done
barrier_hdr postrestart = none

abbrev announce : Server → Msg → Option MsgHdr → C (Unit {0})
announce w garbage none c = ok tt c
announce w garbage (some hdr) c = and_then (send w (record garbage { hdr = hdr }) c) require

abbrev barrier_state : BarrierType → Msg → Client → Client
barrier_state preckpt msg c = record c {
  num_peers = msg.num_peers;
  is_root_of_tree = msg.is_root_of_tree;
}
barrier_state _ msg c = c

abbrev leave_barrier : BarrierType → Option Msg → C (Unit {0})
leave_barrier type none c = aborts
leave_barrier type (some msg) c =
    if barrier_accepts type msg.hdr then ok tt (barrier_state type msg c) else aborts

unfoldable pub enter_coord_barrier : Server → (garbage : Msg) → BarrierType → C (Unit {0})
enter_coord_barrier w garbage type = do
  announce w garbage (barrier_hdr type)
  msg ← recv w
  leave_barrier type msg
