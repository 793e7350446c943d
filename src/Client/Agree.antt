-- ===== src/Client/Agree.antt =====
-- A process of ckpt.Client and the coordinator together: what one sends, the other accepts.
use mathlib.Core.List.{append-nil}
use ckpt.Prelude.{ℕ, ◌≡◌, refl, sym, true, some, List, [], ◌∷◌, ◌++◌}
use ckpt.ProcList.{Proc}
use ckpt.Coord.Base.{connect_launch, connect_restart, ckpt_ready, ckpt_done, Msg, Coord}
use ckpt.Coord.Connect.{handshake_msg}
use ckpt.Coord.Barrier.{BarrierType, preckpt, postckpt, postrestart, barrier_msg}
use ckpt.Coord.Suspend.{answers_ready}
use ckpt.Coord.Checkpoint.{answers_done}
use ckpt.Client.{
  Client, Server, ok, send_recv_coord_handshake, handshake_request, after_handshake,
  enter_coord_barrier, ask,
}

-- The ids that the coordinator has for the process `p` are those of the process.
pub record Knows (c : Coord) (p : Proc) (s : Client) : Type 0 where
  pub virt_pid : s.virt_pid ≡ p.virt_pid
  pub virt_ppid : s.virt_ppid ≡ p.virt_ppid
  pub xnd_pid : s.xnd_pid ≡ p.xnd_pid
  pub xnd_ppid : s.xnd_ppid ≡ p.xnd_ppid
  pub xnd_pgid : s.xnd_pgid ≡ p.xnd_pgid
  pub xnd_uuid : s.xnd_uuid ≡ c.xnd_uuid

-- If the message of the process goes out and the answer that comes back is the handshake that
-- the coordinator `c` sends to `p`, the handshake of a launch returns, the process then has the ids
-- that the coordinator has for it, and the request of a later restart carries all six of them: the
-- virtual pids of the process and of its parent, the three ids of xnd, and the uuid.
pub launch_agrees :
    (w : Server) (garbage : Msg) (c : Coord) (p : Proc) (s : Client)
    → w.sends (handshake_request connect_launch s) ≡ true
    → w.receives (s.sent ++ (handshake_request connect_launch s ∷ []))
      ≡ some (handshake_msg garbage c p)
    → (s' : Client) × (send_recv_coord_handshake w connect_launch s ≡ ok tt s')
      × Knows c p s'
      × ((handshake_request connect_restart s').virt_pid ≡ p.virt_pid)
      × ((handshake_request connect_restart s').virt_ppid ≡ p.virt_ppid)
      × ((handshake_request connect_restart s').xnd_pid ≡ p.xnd_pid)
      × ((handshake_request connect_restart s').xnd_ppid ≡ p.xnd_ppid)
      × ((handshake_request connect_restart s').xnd_pgid ≡ p.xnd_pgid)
      × ((handshake_request connect_restart s').xnd_uuid ≡ c.xnd_uuid)
unfolding send_recv_coord_handshake ask
launch_agrees w garbage c p s out back = (
  after_handshake connect_launch (handshake_msg garbage c p)
      (record s { sent = s.sent ++ (handshake_request connect_launch s ∷ []) }),
  simp (out, back) refl,
  record {
    virt_pid = refl;
    virt_ppid = refl;
    xnd_pid = refl;
    xnd_ppid = refl;
    xnd_pgid = refl;
    xnd_uuid = refl;
  },
  refl,
  refl,
  refl,
  refl,
  refl,
  refl,
)

-- What the coordinator waits for before it releases a barrier: `suspend_visit` and
-- `completion_walk` test the message with these functions.
abbrev pub Announces : BarrierType → List Msg → Type 0
Announces preckpt (msg ∷ []) = answers_ready (some msg) ≡ true
Announces postckpt (msg ∷ []) = answers_done (some msg) ≡ true
Announces postrestart [] = Unit
Announces _ _ = ⊥

-- What a process knows after a barrier that the coordinator has released.
abbrev pub Informed : BarrierType → ℕ → Proc → Client → Client → Type 0
Informed preckpt peers p s s' = (s'.num_peers ≡ peers) × (s'.is_root_of_tree ≡ p.is_root_of_tree)
Informed _ peers p s s' = (s'.num_peers ≡ s.num_peers) × (s'.is_root_of_tree ≡ s.is_root_of_tree)

-- For each of the barriers: if what the process sends goes out and the message that comes back is
-- the one with which the coordinator releases the process `p` from this barrier, the process
-- leaves it; what it has sent on the way in is the message that the coordinator waits for, and none
-- after a restart; and it then knows the number of peers and its root flag from the coordinator
-- after the first barrier, while the others leave them as they were.
pub barrier_agrees :
    (type : BarrierType) (w : Server) (garbage mine : Msg) (peers : ℕ) (p : Proc) (s : Client)
    → ((msg : Msg) → w.sends msg ≡ true)
    → ((sent : List Msg) → w.receives sent ≡ some (barrier_msg type garbage peers p))
    → (s' : Client) × (ms : List Msg) × (enter_coord_barrier w mine type s ≡ ok tt s')
      × (s'.sent ≡ s.sent ++ ms)
      × Announces type ms
      × Informed type peers p s s'
unfolding enter_coord_barrier
barrier_agrees preckpt w garbage mine peers p s out back =
    let msg = record mine { hdr = ckpt_ready } in
    (
      record s {
        sent = s.sent ++ (msg ∷ []);
        num_peers = peers;
        is_root_of_tree = p.is_root_of_tree;
      },
      msg ∷ [],
      simp (out msg, back (s.sent ++ (msg ∷ []))) refl,
      refl,
      refl,
      (refl, refl),
    )
barrier_agrees postckpt w garbage mine peers p s out back =
    let msg = record mine { hdr = ckpt_done } in
    (
      record s { sent = s.sent ++ (msg ∷ []) },
      msg ∷ [],
      simp (out msg, back (s.sent ++ (msg ∷ []))) refl,
      refl,
      refl,
      (refl, refl),
    )
barrier_agrees postrestart w garbage mine peers p s out back =
    (s, [], simp (back s.sent) refl, sym (append-nil s.sent), tt, (refl, refl))
