-- ===== src/Coord/Checkpoint.antt =====
-- A checkpoint as the coordinator of xnd/coordinator/xnd_coord.c runs it: `coord_do_checkpoint` and
-- what it calls.
pub mod Laws
pub mod Complete
pub mod Rounds
pub mod Live
use ckpt.Prelude.{
  ℕ, suc, ◌+◌, ◌-◌, ◌%◌, min, max, Bool, true, false, not, Option, none, some, List, [], ◌∷◌, ◌++◌,
  ◌==◌, if◌then◌else◌, length, map, minus_one, u32_mod,
}
use ckpt.ProcList.{Proc, ckpt_in_progress, ckpt_complete, same_state, find_by_real_pid}
use ckpt.Coord.Base.{
  MsgHdr, ckpt_done, Msg, made_dir, wrote_manifest, unlinked_dir, Coord, returned, M, pure,
  and_then, ◌>>=◌, ◌>>◌, emit, check, World, coord_recv_msg, exit_failure, coord_exit,
}
use ckpt.Coord.Suspend.{coord_collective_prepare, coord_suspend_processes}
use ckpt.Coord.Barrier.{preckpt, postckpt, coord_release_barrier}

abbrev pub is_none : Option Proc → Bool
is_none none = true
is_none (some p) = false

abbrev pub with_root : List Proc → Proc → Proc
with_root all p = record p { is_root_of_tree = is_none (find_by_real_pid all p.real_ppid) }

unfoldable pub coord_determine_roots : M (Unit {0})
coord_determine_roots c = returned tt (record c { procs = map (with_root c.procs) c.procs })

abbrev is_ckpt_done : MsgHdr → Bool
is_ckpt_done ckpt_done = true
is_ckpt_done _ = false

abbrev pub answers_done : Option Msg → Bool
answers_done none = false
answers_done (some msg) = is_ckpt_done msg.hdr

-- The walk that receives the completions: the processes as it leaves them, and their number.
unfoldable pub completion_walk : World → List Proc → M (List Proc × ℕ)
unfolding coord_recv_msg
completion_walk w [] = pure ([], 0)
completion_walk w (p ∷ ps) = do
  check (same_state p.state ckpt_in_progress)
  (rest, total) ← completion_walk w ps
  let done = answers_done (coord_recv_msg w p.fd)
  pure (if done then (record p { state = ckpt_complete } ∷ rest, suc total) else (p ∷ rest, total))

unfoldable pub coord_wait_for_ckpt_completions : List World → World → M (Unit {0})
unfolding completion_walk
coord_wait_for_ckpt_completions ws w c =
    let expected = c.num_peers in
    let run : M (Unit {0}) = do
      total ← coord_collective_prepare ws
      if total == expected
          then (λ c'. and_then (completion_walk w c'.procs c') (λ (procs, completions) c''.
              if completions == expected
              then returned tt (record c'' { procs = procs })
              else coord_exit exit_failure (record c'' { procs = procs })))
          else coord_exit exit_failure
    in run c

pub max_xnd_pid : List Proc → ℕ → ℕ
max_xnd_pid [] m = m
max_xnd_pid (p ∷ ps) m = max_xnd_pid ps (max p.xnd_pid m)

pub min_xnd_pid : List Proc → ℕ → ℕ
min_xnd_pid [] m = m
min_xnd_pid (p ∷ ps) m = min_xnd_pid ps (min p.xnd_pid m)

-- `written` is whether `xnd_ckptfile_write_manifest` returns 0.
unfoldable pub coord_write_ckpt_manifest : (written : Bool) → M (Unit {0})
unfolding max_xnd_pid min_xnd_pid coord_exit
coord_write_ckpt_manifest written c =
    let lo = min_xnd_pid c.procs minus_one in
    let hi = max_xnd_pid c.procs 0 in
    if written
    then returned tt (emit (wrote_manifest c.num_peers lo hi c.xnd_uuid c.epoch) c)
    else coord_exit exit_failure c

-- The world's answers during one checkpoint, call by call.
pub record Schedule : Type 0 where
  pub before_request : List World
  pub suspending : List World
  pub dir_created : Bool
  pub before_start : List World
  pub starting : World
  pub before_done : List World
  pub finishing : World
  pub manifest_written : Bool
  pub resuming : World

-- What the coordinator reports: nothing where no process is left, and the two lines that it prints.
pub data Report : Type 0 where
  no_process complete failed : Report

-- `epoch != 0` decides whether there is an older checkpoint to remove.
unfoldable pub finish_epoch : M (Unit {0})
finish_epoch c =
    let c' = if c.epoch == 0 then c else emit (unlinked_dir c.xnd_uuid (c.epoch - 1)) c in
    returned tt (record c' { epoch = (c.epoch + 1) % 18446744073709551616 })

abbrev pub set_num_peers : M (Unit {0})
set_num_peers c = returned tt (record c { num_peers = c.size % 4294967296 })

-- From the directory on, once every process is suspended.
unfoldable pub take_checkpoint : Schedule → Msg → M Report
take_checkpoint s garbage c =
    let run : M Report = do
      set_num_peers
      coord_determine_roots
      total ← coord_collective_prepare s.before_start
      (λ c'. check (total == c'.num_peers) c')
      started ← coord_release_barrier s.starting garbage preckpt
      check started
      coord_wait_for_ckpt_completions s.before_done s.finishing
      coord_write_ckpt_manifest s.manifest_written
      resumed ← coord_release_barrier s.resuming garbage postckpt
      check resumed
      finish_epoch
      pure complete
    in run (emit (made_dir c.xnd_uuid c.epoch) c)

unfoldable pub coord_do_checkpoint : Schedule → Msg → M Report
coord_do_checkpoint s garbage = do
  total ← coord_collective_prepare s.before_request
  if total == 0 then pure no_process else (do
    coord_suspend_processes s.suspending
    if s.dir_created
        then take_checkpoint s garbage
        else (λ c. returned failed (emit (unlinked_dir c.xnd_uuid c.epoch) c)))
