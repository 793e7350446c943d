-- ===== src/Coord/Barrier.antt =====
-- The barriers of the coordinator of xnd/coordinator/xnd_coord.c.
pub mod Laws
use ckpt.Prelude.{ℕ, Bool, true, false, List, [], ◌∷◌, if◌then◌else◌}
use ckpt.ProcList.{
  ProcState, running, ready_for_ckpt, ckpt_in_progress, ckpt_complete, restart_in_progress,
  same_state, Proc,
}
use ckpt.Coord.Base.{
  MsgHdr, ckpt_start, resume_after_ckpt, resume_after_restart, Msg, Coord, returned, M, pure,
  and_then, ◌>>=◌, ◌>>◌, check, World, coord_send_msg,
}

pub data BarrierType : Type 0 where
  preckpt postckpt postrestart : BarrierType

abbrev pub expected_state : BarrierType → ProcState
expected_state preckpt = ready_for_ckpt
expected_state postckpt = ckpt_complete
expected_state postrestart = restart_in_progress

abbrev pub next_state : BarrierType → ProcState
next_state preckpt = ckpt_in_progress
next_state postckpt = running
next_state postrestart = running

-- Only the first barrier fills in the number of peers and the root flag.
abbrev pub barrier_msg : BarrierType → Msg → ℕ → Proc → Msg
barrier_msg preckpt garbage peers p = record garbage {
  hdr = ckpt_start;
  num_peers = peers;
  is_root_of_tree = p.is_root_of_tree;
}
barrier_msg postckpt garbage peers p = record garbage { hdr = resume_after_ckpt }
barrier_msg postrestart garbage peers p = record garbage { hdr = resume_after_restart }

-- The walk over the list: the processes as it leaves them, and whether every message went out. The
-- state's own list is set at the end of the walk.
unfoldable pub release_walk : BarrierType → World → Msg → ℕ → List Proc → M (List Proc × Bool)
unfolding coord_send_msg
release_walk type w garbage peers [] = pure ([], true)
release_walk type w garbage peers (p ∷ ps) = do
  check (same_state p.state (expected_state type))
  done ← coord_send_msg w p.fd (barrier_msg type garbage peers p)
  if done
      then (do
        (rest, all) ← release_walk type w garbage peers ps
        pure (record p { state = next_state type } ∷ rest, all))
      else pure (p ∷ ps, false)

-- `false` is the return value -1.
unfoldable pub coord_release_barrier : World → (garbage : Msg) → BarrierType → M Bool
unfolding release_walk
coord_release_barrier w garbage type c =
    and_then (release_walk type w garbage c.num_peers c.procs c)
      (λ (procs, all) c'. returned all (record c' { procs = procs }))
