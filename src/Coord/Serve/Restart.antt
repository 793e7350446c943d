-- ===== src/Coord/Serve/Restart.antt =====
-- A restart as the coordinator of xnd/coordinator/xnd_coord.c runs it, from the first connection to
-- the release of all processes.
use ckpt.Prelude.{
  ◌≡◌, ap, subst, sym, ◌∙◌, true, false, Bool, List, ◌==◌, length, length-map, All, Bool-cases, inl,
  inr, arith,
}
use ckpt.ProcList.{running}
use ckpt.Coord.Base.{Msg, Coord, World, coord_exit, returned, exited, exit_failure}
use ckpt.Coord.Base.Ends
use ckpt.Coord.Base.Ends.{Ends, returns, exits, aborts, waits}
use ckpt.Coord.Barrier.{postrestart, coord_release_barrier}
use ckpt.Coord.Barrier.Laws.{advance, release_barrier_done}
use ckpt.Coord.Checkpoint.Laws.{collective_prepare_lem}
use ckpt.Coord.Checkpoint.Complete.{All-advance}
use ckpt.Coord.Serve.{Round, gather_first, gather_peers, coord_do_restart}

-- What a restart that returns has achieved.
pub record IsResumed (c : Coord) : Type 0 where
  pub resumed : All (λ p. p.state ≡ running) c.procs
  pub counted : length c.procs ≡ c.num_peers

-- Any way to end, if nothing is asked of the state.
anything : {A : Type 0} (r : ckpt.Coord.Base.Run A) → Ends (λ _ c. Unit {0}) r
anything (ckpt.Coord.Base.returned a c) = returns tt
anything (ckpt.Coord.Base.exited s c) = exits
anything ckpt.Coord.Base.aborted = aborts
anything ckpt.Coord.Base.unfinished = waits

resume_lem :
    (w : World) (garbage : Msg) (c : Coord)
    → length c.procs ≡ c.num_peers
    → Ends
        (λ released c'. released ≡ true → IsResumed c')
        (coord_release_barrier w garbage postrestart c)
resume_lem w garbage c count =
    Ends.mono (release_barrier_done postrestart w garbage c) (λ released c' post done.
      let (_, same) = post done in
      record {
        resumed =
            subst (All (λ p. p.state ≡ running)) (sym (ap (λ (d : Coord). d.procs) same))
              (All-advance postrestart c.procs);
        counted =
            ap (λ (d : Coord). length d.procs) same
            ∙ length-map (advance postrestart) c.procs
            ∙ count
            ∙ sym (ap (λ (d : Coord). d.num_peers) same);
      })

-- Where `coord_do_restart` returns, as many processes as there were peers are connected, and all of
-- them run.
pub do_restart_resumes :
    (orphaned : Bool) (first rest : List Round) (prepared : List World) (resuming : World)
    (garbage : Msg) (c : Coord)
    → Ends (λ _. IsResumed) (coord_do_restart orphaned first rest prepared resuming garbage c)
unfolding coord_do_restart coord_exit
do_restart_resumes true first rest prepared resuming garbage c = exits
do_restart_resumes false first rest prepared resuming garbage c =
    Ends.bind (anything (gather_first first c)) (λ _ a _.
      Ends.bind (anything (gather_peers rest a)) (λ _ b _.
        Ends.bind (collective_prepare_lem prepared b) (λ total d (count, k).
          elim (Bool-cases (total == d.num_peers)) [
            | inl all ↦ rw all (
                Ends.bind (resume_lem resuming garbage d (ground arith)) (λ released e post.
                  elim (Bool-cases released) [
                    | inl done ↦ rw done (returns (post done))
                    | inr failed ↦ rw failed exits
                  ]))
            | inr wrong ↦ rw wrong exits
          ])))
