-- ===== src/Coord/ConnectTests.antt =====
-- Connections and messages of the coordinator (xnd/coordinator/xnd_coord.c) at concrete states.
use ckpt.Prelude.{ℕ, ◌≡◌, refl, ap, subst, Option, none, some, arith}
use ckpt.ProcList.{Proc, find_by_real_pid}
use ckpt.Coord.Base.{
  connect_launch, atfork_prepare, atfork_child, exit_msg, virt_to_real, coord_ack, success, Msg,
  zeroed, Coord, returned, World, coord_recv_msg,
}
use ckpt.Coord.Base.Ends.{Ends}
use ckpt.Coord.Connect.{
  coord_connect_with_process_on_launch, coord_connect_with_process_on_restart, coord_atfork,
}
use ckpt.Coord.Connect.Invariant.{IsValid}
use ckpt.Pid.Table.{real_id_exists}
use ckpt.Coord.Connect.Child.{Joined, launch_child}
use ckpt.Coord.Connect.Launch.{launch-IsValid}
use ckpt.Coord.Connect.Fork.{atfork-IsValid}
use ckpt.Coord.Connect.Restart.{Brings, restart-IsValid}
use ckpt.Coord.Message.{coord_handle_msg}
use ckpt.Coord.Message.Laws.{Handled, handle_msg-IsValid}
use ckpt.Coord.Serve.{Arrival, coord_wait_for_connection}
use ckpt.Coord.Serve.Laws.{IsFair, connection-IsValid}
use ckpt.Coord.Samples.{blank, leader, child, two, two-IsValid, answering, smooth, returning}

-- A second child of the leader that starts.
abbrev second : Msg
second = record (zeroed connect_launch success) { real_pid = 702; real_ppid = 700 }

launch-IsValid_example :
    Ends
      (λ _. IsValid)
      (coord_connect_with_process_on_launch (answering coord_ack) blank leader 7 second two)
launch-IsValid_example =
    launch-IsValid (answering coord_ack) blank leader 7 second two two-IsValid
      (omega arith, omega arith)

launch_child_example :
    (c' : Coord) × (p : Proc) × (coord_connect_with_process_on_launch
        (answering coord_ack)
        blank
        leader
        7
        second
        two
      ≡ returned tt c')
    × Joined two c' p leader 702
unfolding real_id_exists find_by_real_pid
launch_child_example =
    launch_child (answering coord_ack) blank leader 7 second two leader two-IsValid
      (omega arith, omega arith) refl refl refl refl refl

-- The leader forks: the answer is the child's.
abbrev forking : World
forking = record (answering atfork_child) {
  incoming = λ fd. some (record (zeroed atfork_child success) { real_pid = 702; real_ppid = 700 });
}

abbrev of_leader : Msg
of_leader = record (zeroed atfork_prepare success) { virt_ppid = 2; xnd_ppid = 2; xnd_pgid = 2 }

atfork-IsValid_example : Ends (λ _. IsValid) (coord_atfork forking blank child 7 of_leader two)
atfork-IsValid_example =
    atfork-IsValid forking blank child 7 of_leader two two-IsValid (omega arith, omega arith)

returning-Brings : Brings two returning
returning-Brings = record {
  virt = omega arith;
  xnd = omega arith;
  older = omega arith;
  other_virt = ((λ e. omega arith), ((λ e. omega arith), tt));
  other_xnd = ((λ e. omega arith), ((λ e. omega arith), tt));
  agrees = ((λ e. omega arith), ((λ e. refl), tt));
}

restart-IsValid_example :
    Ends
      (λ _. IsValid)
      (coord_connect_with_process_on_restart (answering coord_ack) blank leader 7 returning two)
restart-IsValid_example =
    restart-IsValid (answering coord_ack) blank leader 7 returning two two-IsValid (omega arith)
      returning-Brings

abbrev or_blank : Option Msg → Msg
or_blank none = blank
or_blank (some msg) = msg

abbrev starting_second : Arrival
starting_second = record {
  world = record (answering coord_ack) { incoming = λ fd. some second };
  accepted = some 7;
  garbage = blank;
  raw = child;
  schedule = smooth;
}

second-IsFair :
    (fd : ℕ) (msg : Msg) → coord_recv_msg starting_second.world fd ≡ some msg → IsFair two msg
unfolding coord_recv_msg
second-IsFair fd msg e =
    subst (IsFair two) (ap or_blank e) (record { no_command = λ c. cc; brings = λ c. absurd cc })

connection-IsValid_example : Ends (λ _. IsValid) (coord_wait_for_connection starting_second two)
connection-IsValid_example =
    connection-IsValid starting_second two two-IsValid (omega arith, omega arith) second-IsFair

abbrev child_exits : Msg
child_exits = record (zeroed exit_msg success) { real_pid = 701 }

handle_msg-IsValid_example :
    Ends
      (λ _ c'. IsValid c' × Handled exit_msg child_exits two c')
      (coord_handle_msg (answering coord_ack) 5 child_exits two)
handle_msg-IsValid_example = handle_msg-IsValid (answering coord_ack) 5 child_exits two two-IsValid

abbrev asks_for_child : Msg
asks_for_child = record (zeroed virt_to_real success) { virt_pid = 3 }
