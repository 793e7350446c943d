-- ===== src/Client/Fork.antt =====
-- The fork handlers and the end of the connection (xnd/coordinator/xnd_coord_client.c).
use ckpt.Prelude.{
  ℕ, ◌≡◌, refl, Bool, true, false, not, some, List, [], ◌∷◌, ◌++◌, ◌==◌, if◌then◌else◌, minus_one,
  arith,
}
use ckpt.ProcList.{Proc}
use ckpt.Coord.Base.{exit_msg, atfork_prepare, atfork_child, coord_ack, success, Msg, Coord, zeroed}
use ckpt.Coord.Connect.{handshake_msg}
use ckpt.Client.{
  Client, Server, ok, waits, C, ◌>>=◌, ◌>>◌, require, modify, ask, take_fd, send,
  send_recv_coord_handshake, handshake_request, coord_fd_number, after_handshake, is_negative,
}
use ckpt.Client.Agree.{Knows}

unfoldable pub oob_lock : C (Unit {0})
oob_lock c = if c.oob_locked then waits else ok tt (record c { oob_locked = true })

unfoldable pub oob_unlock : C (Unit {0})
oob_unlock c = ok tt (record c { oob_locked = false })

-- `garbage` is the memory of the message.
abbrev pub prepare_msg : Msg → Client → Msg
prepare_msg garbage c = record garbage {
  hdr = atfork_prepare;
  virt_ppid = c.virt_pid;
  xnd_ppid = c.xnd_pid;
  xnd_pgid = c.xnd_pgid;
}

unfoldable pub coord_client_atfork_prepare : Server → Msg → C (Unit {0})
unfolding oob_lock ask
coord_client_atfork_prepare w garbage c =
    let run : C (Unit {0}) = do
      oob_lock
      modify (λ d. record d { child_coord_fd = w.connect_to_coord })
      require (not (is_negative w.connect_to_coord))
      answer ← ask w (prepare_msg garbage c)
      modify (λ d. record d { asked_pid = answer.virt_pid })
    in run c

-- In the child, which goes on with the parent's variables and with pids of its own.
unfoldable pub coord_client_atfork_child : Server → C (Unit {0})
unfolding oob_unlock send_recv_coord_handshake
coord_client_atfork_child w c =
    let run : C (Unit {0}) = do
      oob_unlock
      take_fd w c.child_coord_fd
      send_recv_coord_handshake w atfork_child
      modify (λ d. record d { oob_fd = minus_one })
    in run c

-- Also `coord_client_atfork_failed`; a failure to close the child's descriptor is only reported.
unfoldable pub coord_client_atfork_parent : C (Unit {0})
unfolding oob_unlock
coord_client_atfork_parent = oob_unlock

-- `ends` tells whether `shutdown` succeeds. A message that does not go out is only reported.
unfoldable pub disconnect_from_coord : Server → (ends : Bool) → C (Unit {0})
disconnect_from_coord w ends c =
    let bye = record (zeroed exit_msg success) { real_pid = c.own_pid } in
    let run : C (Unit {0}) = do
      require (c.own_pid == c.real_pid)
      send w bye
      send w bye
      require ends
      modify (λ d. record d { coord_fd = minus_one; oob_fd = minus_one })
    in run c

-- What the request of `w` in the state `s` has for its answer.
record Answers (w : Server) (answer : Msg) : Type 0 where
  out : (msg : Msg) → w.sends msg ≡ true
  back : (sent : List Msg) → w.receives sent ≡ some answer
  acks : answer.hdr ≡ coord_ack
  good : answer.ret ≡ success

ask_lem :
    (w : Server) (answer msg : Msg) (s : Client)
    → Answers w answer
    → ask w msg s ≡ ok answer (record s { sent = s.sent ++ (msg ∷ []) })
unfolding ask
ask_lem w answer msg s a = simp (a.out msg, a.back (s.sent ++ (msg ∷ [])), a.acks, a.good) refl

handshake_lem :
    (w : Server) (noise : Msg) (c : Coord) (p : Proc) (s : Client)
    → Answers w (handshake_msg noise c p)
    → send_recv_coord_handshake w atfork_child s
      ≡ ok tt (
          after_handshake atfork_child
            (handshake_msg noise c p)
            (record s { sent = s.sent ++ (handshake_request atfork_child s ∷ []) }))
unfolding send_recv_coord_handshake
handshake_lem w noise c p s a = simp (ask_lem w _ (handshake_request atfork_child s) s a) refl

take_fd_lem :
    (w : Server) (fd : ℕ) (c : Client)
    → w.moves ≡ true
    → take_fd w fd c ≡ ok tt (record c { coord_fd = coord_fd_number })
take_fd_lem w fd c m = ground arith

prepare_lem :
    (w : Server) (garbage answer : Msg) (s : Client)
    → s.oob_locked ≡ false
    → is_negative w.connect_to_coord ≡ false
    → Answers w answer
    → let msg = prepare_msg garbage s in
      coord_client_atfork_prepare w garbage s
      ≡ ok tt (record s {
        oob_locked = true;
        child_coord_fd = w.connect_to_coord;
        sent = s.sent ++ (msg ∷ []);
        asked_pid = answer.virt_pid;
      })
unfolding coord_client_atfork_prepare oob_lock
prepare_lem w garbage answer s free fd a =
    let locked : Client = record s { oob_locked = true; child_coord_fd = w.connect_to_coord } in
    simp (free, fd, ask_lem w answer (prepare_msg garbage s) locked a) refl

child_lem :
    (w : Server) (noise : Msg) (c : Coord) (p : Proc) (s : Client)
    → w.moves ≡ true
    → Answers w (handshake_msg noise c p)
    → let ready : Client = record s { oob_locked = false; coord_fd = coord_fd_number } in
      coord_client_atfork_child w s
      ≡ ok tt
          (record (after_handshake atfork_child
            (handshake_msg noise c p)
            (record ready { sent = s.sent ++ (handshake_request atfork_child ready ∷ []) })) {
              oob_fd = minus_one;
            })
unfolding coord_client_atfork_child oob_unlock
child_lem w noise c p s moves a =
    let free : Client = record s { oob_locked = false } in
    let ready : Client = record free { coord_fd = coord_fd_number } in
    simp (take_fd_lem w s.child_coord_fd free moves, handshake_lem w noise c p ready a) refl

-- If the lock for requests is free, the connection for the child is made, the request goes out and
-- is acknowledged by `answer`, and in the child the handshake goes out and is answered with the
-- handshake of the coordinator `c` for the process `p`: the parent's preparation returns with the
-- child's virtual pid from the answer, its end gives the lock back and changes nothing else, and the
-- child's handler returns with the child's ids from the coordinator, the lock free, the connection in
-- its place and no connection for requests.
pub fork_agrees :
    (w v : Server) (garbage noise answer : Msg) (c : Coord) (p : Proc) (s : Client) (real ppid : ℕ)
    → s.oob_locked ≡ false
    → is_negative w.connect_to_coord ≡ false
    → ((msg : Msg) → w.sends msg ≡ true)
    → ((sent : List Msg) → w.receives sent ≡ some answer)
    → answer.hdr ≡ coord_ack
    → answer.ret ≡ success
    → v.moves ≡ true
    → ((msg : Msg) → v.sends msg ≡ true)
    → ((sent : List Msg) → v.receives sent ≡ some (handshake_msg noise c p))
    → (s1 : Client) × (s2 : Client) × (coord_client_atfork_prepare w garbage s ≡ ok tt s1)
      × (s1.asked_pid ≡ answer.virt_pid)
      × (coord_client_atfork_parent s1 ≡ ok tt (record s1 { oob_locked = false }))
      × (coord_client_atfork_child v (record s1 { real_pid = real; real_ppid = ppid }) ≡ ok tt s2)
      × Knows c p s2
      × (s2.oob_locked ≡ false)
      × (s2.coord_fd ≡ coord_fd_number)
      × (s2.oob_fd ≡ minus_one)
unfolding coord_client_atfork_parent oob_unlock
fork_agrees w v garbage noise answer c p s real ppid free fd out back acks good moves out' back' =
    let asked : Answers w answer = record { out = out; back = back; acks = acks; good = good } in
    let greeted : Answers v (handshake_msg noise c p) = record {
      out = out';
      back = back';
      acks = refl;
      good = refl;
    } in
    let s1 : Client = record s {
      oob_locked = true;
      child_coord_fd = w.connect_to_coord;
      sent = s.sent ++ (prepare_msg garbage s ∷ []);
      asked_pid = answer.virt_pid;
    } in
    let child : Client = record s1 { real_pid = real; real_ppid = ppid } in
    (
      s1,
      _,
      prepare_lem w garbage answer s free fd asked,
      refl,
      refl,
      child_lem v noise c p child moves greeted,
      record {
        virt_pid = refl;
        virt_ppid = refl;
        xnd_pid = refl;
        xnd_ppid = refl;
        xnd_pgid = refl;
        xnd_uuid = refl;
      },
      refl,
      refl,
      refl,
    )
