-- ===== src/Coord/Samples.antt =====
-- A small state of the coordinator of xnd/coordinator/xnd_coord.c, for tests.
use ckpt.Prelude.{refl, true, false, some, [], ◌∷◌, arith, minus_one}
use ckpt.ProcList.{running, Proc}
use ckpt.Pid.Table.{virtual_to_real, virtual_id_exists}
use ckpt.Coord.Base.{
  connect_restart, ckpt_ready, ckpt_done, MsgHdr, coord_ack, success, Msg, zeroed, Coord, World,
}
use ckpt.Coord.Connect.Invariant.{IsValid}
use ckpt.Coord.Checkpoint.{Schedule}

abbrev pub blank : Msg
blank = zeroed coord_ack success

-- A group leader, started from a shell, and its child.
abbrev pub leader : Proc
leader = record {
  fd = 5;
  oob_fd = minus_one;
  xnd_pid = 2;
  xnd_ppid = 1;
  xnd_pgid = 2;
  virt_pid = 2;
  real_pid = 700;
  virt_ppid = 1;
  real_ppid = 600;
  num_peers = 0;
  is_root_of_tree = false;
  state = running;
}

abbrev pub child : Proc
child = record {
  fd = 6;
  oob_fd = minus_one;
  xnd_pid = 3;
  xnd_ppid = 2;
  xnd_pgid = 2;
  virt_pid = 3;
  real_pid = 701;
  virt_ppid = 2;
  real_ppid = 700;
  num_peers = 0;
  is_root_of_tree = false;
  state = running;
}

abbrev pub two : Coord
two = record {
  xnd_uuid = 9;
  epoch = 0;
  next_virt_pid = 4;
  next_xnd_pid = 4;
  num_peers = 2;
  listen_fd = 3;
  ckpt_interval = 0;
  procs = child ∷ leader ∷ [];
  size = 2;
  table = (1, 600) ∷ (2, 700) ∷ (3, 701) ∷ [];
  log = [];
}

pub two-IsValid : IsValid two
unfolding virtual_to_real virtual_id_exists
two-IsValid = record {
  sized = refl;
  below = (omega arith, (omega arith, tt));
  distinct = ((((λ e. omega arith), (λ e. omega arith)), tt), (tt, tt));
  registered = (refl, (refl, tt));
  keys = λ k e. ground arith;
}

-- A world in which every process lives, can be written to, and sends `hdr` when it is read.
abbrev pub answering : MsgHdr → World
answering hdr = record {
  writable = λ fd. true;
  incoming = λ fd. some (zeroed hdr success);
  alive = λ pid. true;
  selected = some 2;
}

-- A checkpoint in which each wait takes as few rounds as it can.
abbrev pub smooth : Schedule
smooth = record {
  before_request = answering coord_ack ∷ [];
  suspending = answering coord_ack ∷ answering ckpt_ready ∷ [];
  dir_created = true;
  before_start = answering coord_ack ∷ [];
  starting = answering coord_ack;
  before_done = answering coord_ack ∷ [];
  finishing = answering ckpt_done;
  manifest_written = true;
  resuming = answering coord_ack;
}

-- A process of a checkpoint, with ids that are not in use.
abbrev pub returning : Msg
returning = record (zeroed connect_restart success) {
  real_pid = 703;
  real_ppid = 700;
  virt_pid = 8;
  virt_ppid = 2;
  xnd_pid = 8;
  xnd_ppid = 2;
  xnd_pgid = 2;
}
