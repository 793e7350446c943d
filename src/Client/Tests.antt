-- ===== src/Client/Tests.antt =====
-- A process and the messages of the coordinator, and the theorems at them.
use ckpt.Prelude.{◌≡◌, refl, true, false, some, List, [], ◌++◌, minus_one}
use ckpt.Coord.Base.{connect_launch, connect_restart, coord_ack, success, Msg, zeroed}
use ckpt.Coord.Connect.{handshake_msg}
use ckpt.Coord.Barrier.{preckpt, barrier_msg}
use ckpt.Coord.Samples.{child, two}
use ckpt.Client.{
  Client, Server, ok, send_recv_coord_handshake, handshake_request, enter_coord_barrier,
  coord_fd_number,
}
use ckpt.Client.Agree.{Knows, Announces, Informed, launch_agrees, barrier_agrees}
use ckpt.Client.Fork.{
  coord_client_atfork_prepare, coord_client_atfork_child, coord_client_atfork_parent, fork_agrees,
}

abbrev fresh : Client
fresh = record {
  coord_fd = 210;
  child_coord_fd = minus_one;
  oob_fd = minus_one;
  oob_locked = false;
  real_pid = 500;
  real_ppid = 400;
  own_pid = 500;
  virt_pid = 0;
  virt_ppid = 0;
  xnd_pid = 0;
  xnd_ppid = 0;
  xnd_pgid = 0;
  xnd_uuid = 0;
  epoch = 0;
  num_peers = 0;
  is_root_of_tree = false;
  ckpt_interval = 0;
  asked_pid = 0;
  sent = [];
}

abbrev blank_msg : Msg
blank_msg = zeroed coord_ack success

abbrev answering_with : Msg → Server
answering_with msg = record {
  connect_to_coord = 6;
  sends = λ m. true;
  receives = λ ms. some msg;
  moves = true;
}

launch_agrees_example :
    let w = answering_with (handshake_msg blank_msg two child) in
    (s' : Client) × (send_recv_coord_handshake w connect_launch fresh ≡ ok tt s')
    × Knows two child s'
    × ((handshake_request connect_restart s').virt_pid ≡ child.virt_pid)
    × ((handshake_request connect_restart s').virt_ppid ≡ child.virt_ppid)
    × ((handshake_request connect_restart s').xnd_pid ≡ child.xnd_pid)
    × ((handshake_request connect_restart s').xnd_ppid ≡ child.xnd_ppid)
    × ((handshake_request connect_restart s').xnd_pgid ≡ child.xnd_pgid)
    × ((handshake_request connect_restart s').xnd_uuid ≡ two.xnd_uuid)
launch_agrees_example =
    launch_agrees (answering_with (handshake_msg blank_msg two child)) blank_msg two child fresh
      refl refl

barrier_agrees_example :
    let w = answering_with (barrier_msg preckpt blank_msg 2 child) in
    (s' : Client) × (ms : List Msg) × (enter_coord_barrier w blank_msg preckpt fresh ≡ ok tt s')
    × (s'.sent ≡ fresh.sent ++ ms)
    × Announces preckpt ms
    × Informed preckpt 2 child fresh s'
barrier_agrees_example =
    barrier_agrees preckpt (answering_with (barrier_msg preckpt blank_msg 2 child)) blank_msg
      blank_msg 2 child fresh (λ m. refl) (λ ms. refl)

fork_agrees_example :
    let v = answering_with (handshake_msg blank_msg two child) in
    (s1 : Client) × (s2 : Client) × (coord_client_atfork_prepare
        (answering_with blank_msg)
        blank_msg
        fresh
      ≡ ok tt s1)
    × (s1.asked_pid ≡ blank_msg.virt_pid)
    × (coord_client_atfork_parent s1 ≡ ok tt (record s1 { oob_locked = false }))
    × (coord_client_atfork_child v (record s1 { real_pid = 501; real_ppid = 500 }) ≡ ok tt s2)
    × Knows two child s2
    × (s2.oob_locked ≡ false)
    × (s2.coord_fd ≡ coord_fd_number)
    × (s2.oob_fd ≡ minus_one)
fork_agrees_example =
    fork_agrees (answering_with blank_msg) (answering_with (handshake_msg blank_msg two child))
      blank_msg blank_msg blank_msg two child fresh 501 500 refl refl (λ m. refl) (λ ms. refl) refl
      refl refl (λ m. refl) (λ ms. refl)
