-- ===== src/Coord/Base.antt =====
-- The state of the coordinator (xnd/coordinator/xnd_coord.h), its messages
-- (xnd/coordinator/xnd_coord_api.h), what it does to the world, and its ends.
pub mod Ends
pub mod Does
use ckpt.Prelude.{
  ℕ, ◌+◌, Bool, true, false, Option, List, [], ◌∷◌, ◌++◌, ◌==◌, if◌then◌else◌, minus_one,
}
use ckpt.ProcList.{Proc}
use ckpt.Pid.Table.{Entries, erase}

pub data MsgHdr : Type 0 where
  connect_launch connect_restart exit_msg atfork_prepare atfork_child atfork_failed command : MsgHdr
  coord_ack client_ack virt_to_real real_to_virt ckpt_request ckpt_ready ckpt_start : MsgHdr
  ckpt_done resume_after_ckpt restart resume_after_restart : MsgHdr

pub data Cmd : Type 0 where
  null_cmd ckpt_cmd exit_cmd kill_cmd : Cmd

pub data CoordReturn : Type 0 where
  success failure : CoordReturn

pub record Msg : Type 0 where
  pub hdr : MsgHdr
  pub cmd : Cmd
  pub ret : CoordReturn
  pub xnd_uuid : ℕ
  pub xnd_pid : ℕ
  pub xnd_ppid : ℕ
  pub xnd_pgid : ℕ
  pub epoch : ℕ
  pub num_peers : ℕ
  pub is_root_of_tree : Bool
  pub ckpt_interval : ℕ
  pub real_pid : ℕ
  pub real_ppid : ℕ
  pub virt_pid : ℕ
  pub virt_ppid : ℕ

-- A message whose fields other than `hdr` and `ret` are zero, as an initialiser leaves them.
abbrev pub zeroed : MsgHdr → CoordReturn → Msg
zeroed h r = record {
  hdr = h;
  cmd = null_cmd;
  ret = r;
  xnd_uuid = 0;
  xnd_pid = 0;
  xnd_ppid = 0;
  xnd_pgid = 0;
  epoch = 0;
  num_peers = 0;
  is_root_of_tree = false;
  ckpt_interval = 0;
  real_pid = 0;
  real_ppid = 0;
  virt_pid = 0;
  virt_ppid = 0;
}

-- What the coordinator does to the world, in order.
pub data Event : Type 0 where
  sent : (fd : ℕ) → Msg → Event
  closed : (fd : ℕ) → Event
  signalled : (pid sig : ℕ) → Event
  made_dir : (uuid epoch : ℕ) → Event
  wrote_manifest : (total min_xnd_pid max_xnd_pid uuid epoch : ℕ) → Event
  unlinked_dir : (uuid epoch : ℕ) → Event
  unlinked_socket : Event

-- `coord_info`, the process list with its size, the pid table, and the events so far.
pub record Coord : Type 0 where
  pub xnd_uuid : ℕ
  pub epoch : ℕ
  pub next_virt_pid : ℕ
  pub next_xnd_pid : ℕ
  pub num_peers : ℕ
  pub listen_fd : ℕ
  pub ckpt_interval : ℕ
  pub procs : List Proc
  pub size : ℕ
  pub table : Entries
  pub log : List Event

-- How a function of the coordinator ends: it returns, the process exits after the cleanup of
-- `coord_exit`, an assertion fails, or the schedule of the world's answers is used up in a loop.
pub data Run (A : Type 0) : Type 0 where
  returned : A → Coord → Run A
  exited : (status : ℕ) → Coord → Run A
  aborted : Run A
  unfinished : Run A

abbrev pub M : Type 0 → Type 0
M A = Coord → Run A

abbrev pub pure : {A : Type 0} → A → M A
pure = returned

module _ {A B : Type 0} where
  abbrev pub and_then : Run A → (A → M B) → Run B
  and_then (returned a c) k = k a c
  and_then (exited s c) k = exited s c
  and_then aborted k = aborted
  and_then unfinished k = unfinished

  infixl 5 ◌>>=◌ ◌>>◌
  abbrev pub ◌>>=◌ : M A → (A → M B) → M B
  m >>= k = λ c. and_then (m c) k

  abbrev pub ◌>>◌ : M A → M B → M B
  m >> k = m >>= λ _. k

abbrev pub emit : Event → Coord → Coord
emit e c = record c { log = c.log ++ (e ∷ []) }

-- `xnd_assert`
abbrev pub check : Bool → M (Unit {0})
check b c = if b then returned tt c else aborted

-- The world's answers during one pass of a function: whether a message to a descriptor goes out,
-- what arrives on a descriptor (`none` is a short read), whether `kill(pid, 0)` finds the process,
-- and what `select` returns (`none` is -1).
pub record World : Type 0 where
  pub writable : ℕ → Bool
  pub incoming : ℕ → Option Msg
  pub alive : ℕ → Bool
  pub selected : Option ℕ

-- `coord_send_msg`: a message that cannot be written in full is an error.
unfoldable pub coord_send_msg : World → ℕ → Msg → M Bool
coord_send_msg w fd msg c =
    if w.writable fd then returned true (emit (sent fd msg) c) else returned false c

unfoldable pub coord_recv_msg : World → ℕ → Option Msg
coord_recv_msg w fd = w.incoming fd

abbrev close_fd : ℕ → List Event
close_fd fd = if fd == minus_one then [] else closed fd ∷ []

-- The descriptors that `proc_exit_callback` closes.
abbrev pub closes : Proc → List Event
closes p = close_fd p.fd ++ close_fd p.oob_fd

unfoldable pub proc_exit_callback : Proc → Coord → Coord
proc_exit_callback p c = record c { log = c.log ++ closes p; table = erase c.table p.virt_pid }

-- `proc_list_destroy`: the callback on each process, head first.
destroy : List Proc → Coord → Coord
destroy [] c = c
destroy (p ∷ ps) c = destroy ps (proc_exit_callback p c)

-- `socket_exists` is `access(XND_COORD_PATH, F_OK) == 0`.
unfoldable pub coord_cleanup : (socket_exists : Bool) → Coord → Coord
unfolding destroy proc_exit_callback
coord_cleanup socket_exists c =
    let emptied = record (destroy c.procs c) { procs = []; size = 0 } in
    let shut = record emptied { log = emptied.log ++ close_fd c.listen_fd } in
    if socket_exists then emit unlinked_socket shut else shut

abbrev pub exit_failure : ℕ
exit_failure = 222

abbrev pub exit_success : ℕ
exit_success = 0

-- While the coordinator runs its socket exists.
unfoldable pub coord_exit : {A : Type 0} → ℕ → M A
coord_exit status c = exited status (coord_cleanup true c)

-- `proc_list_add`
unfoldable pub proc_list_add : Proc → Coord → Coord
proc_list_add p c = record c { procs = p ∷ c.procs; size = c.size + 1 }
