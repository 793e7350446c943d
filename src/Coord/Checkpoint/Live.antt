-- ===== src/Coord/Checkpoint/Live.antt =====
-- A checkpoint of xnd/coordinator/xnd_coord.c in which every process does its part.
use ckpt.Prelude.{
  ℕ, ◌%◌, ◌<◌, ◌≡◌, refl, ◌∙◌, sym, ap, subst, true, false, List, [], ◌∷◌, ◌==◌, length, length-map,
  map, All, arith,
}
use ckpt.ProcList.{running, ready_for_ckpt, ckpt_in_progress, Proc}
use ckpt.Coord.Base.{Msg, Coord, returned, World, coord_recv_msg}
use ckpt.Coord.Suspend.{answers_ready, coord_suspend_processes}
use ckpt.Coord.Suspend.Laws.{in_state, suspend_ready}
use ckpt.Coord.Suspend.Early.{suspend_terminates}
use ckpt.Coord.Base.Ends.{of_returned}
use ckpt.Coord.Barrier.{preckpt, postckpt}
use ckpt.Coord.Checkpoint.{
  answers_done, coord_determine_roots, with_root, coord_write_ckpt_manifest, Schedule, complete,
  finish_epoch, take_checkpoint, coord_do_checkpoint,
}
use ckpt.Coord.Checkpoint.Complete.{IsComplete, do_checkpoint_complete}
use ckpt.Coord.Base.Does.{Does, does, bind, returned_of}
use ckpt.Coord.Checkpoint.Rounds.{
  IsHelpful, prepare-Does, release-Does, completions-Does, prepare-Crew, check-Crew,
}

-- The worlds of a checkpoint in which each wait takes the rounds that it needs and no more.
pub record Helpers : Type 0 where
  pub first : World
  pub asked : World
  pub answered : World
  pub start : World
  pub starting : World
  pub finish : World
  pub finishing : World
  pub resuming : World

abbrev pub schedule_of : Helpers → Schedule
schedule_of h = record {
  before_request = h.first ∷ [];
  suspending = h.asked ∷ h.answered ∷ [];
  dir_created = true;
  before_start = h.start ∷ [];
  starting = h.starting;
  before_done = h.finish ∷ [];
  finishing = h.finishing;
  manifest_written = true;
  resuming = h.resuming;
}

-- `n` processes do their part in every round.
pub record AllHelp (n : ℕ) (h : Helpers) : Type 0 where
  pub first : IsHelpful n h.first
  pub asked : IsHelpful n h.asked
  pub answered : IsHelpful n h.answered
  pub start : IsHelpful n h.start
  pub starting : IsHelpful n h.starting
  pub finish : IsHelpful n h.finish
  pub resuming : IsHelpful n h.resuming
  pub ready : (fd : ℕ) → answers_ready (h.answered.incoming fd) ≡ true
  pub finished : (fd : ℕ) → answers_done (coord_recv_msg h.finishing fd) ≡ true

rooted :
    (all ps : List Proc)
    → All (λ p. p.state ≡ ready_for_ckpt) ps
    → All (λ p. p.state ≡ ready_for_ckpt) (map (with_root all) ps)
rooted all [] states = tt
rooted all (p ∷ ps) states = (states.0, rooted all ps states.1)

take_checkpoint-Does :
    (n : ℕ) (h : Helpers) (garbage : Msg) (c : Coord)
    → AllHelp n h
    → All (λ p. p.state ≡ ready_for_ckpt) c.procs
    → length c.procs ≡ n
    → c.size % 4294967296 ≡ n
    → Does (λ r _. r ≡ complete) (take_checkpoint (schedule_of h) garbage c)
unfolding take_checkpoint coord_determine_roots coord_write_ckpt_manifest finish_epoch
take_checkpoint-Does n h garbage c help states number peers =
    bind
      (prepare-Crew ready_for_ckpt n h.start [] _ help.start (record {
        states = rooted c.procs c.procs states;
        number = length-map (with_root c.procs) c.procs ∙ number;
        peers = peers;
      }))
      (λ total b (count, kb).
        bind
          (check-Crew ready_for_ckpt n (total == b.num_peers) b (ground (arith, count, kb.peers))
            kb)
          (λ _ b' kb'.
            bind (release-Does preckpt n h.starting garbage b' help.starting kb')
              (λ started d (done, kd).
                bind (check-Crew ckpt_in_progress n started d done kd) (λ _ d' kd'.
                  bind (completions-Does n h.finish [] h.finishing d' help.finish help.finished kd')
                    (λ _ f kf.
                      bind
                        (release-Does postckpt n h.resuming garbage _ help.resuming
                          (record { states = kf.states; number = kf.number; peers = kf.peers }))
                        (λ resumed g (done', kg).
                          bind (check-Crew running n resumed g done' kg)
                            (λ _ g' kg'. does refl)))))))

suspended :
    (ps : List Proc) → All (λ p. p.state ≡ ready_for_ckpt) (map (in_state ready_for_ckpt) ps)
suspended [] = tt
suspended (p ∷ ps) = (refl, suspended ps)

suspend-Does :
    (n : ℕ) (asked answered : World) (c : Coord)
    → IsHelpful n asked
    → IsHelpful n answered
    → ((fd : ℕ) → answers_ready (answered.incoming fd) ≡ true)
    → All (λ p. p.state ≡ running) c.procs
    → Does
        (λ _ c'.
          All (λ p. p.state ≡ ready_for_ckpt) c'.procs
          × (length c'.procs ≡ length c.procs)
          × (c'.size ≡ c.size))
        (coord_suspend_processes (asked ∷ answered ∷ []) c)
suspend-Does n asked answered c help help' ready states =
    let (c', e, procs) =
      suspend_terminates asked answered [] c help.alive help'.alive tt help.writable ready states in
    let post = suspend_ready (asked ∷ answered ∷ []) c (help.alive, (help'.alive, tt)) in
    let (_, _, size, _, _) = of_returned (rw e at post) in
    rw e (
      does (
        subst (All (λ p. p.state ≡ ready_for_ckpt)) (sym procs) (suspended c.procs),
        ap length procs ∙ length-map (in_state ready_for_ckpt) c.procs,
        size,
      ))

do_checkpoint-Does :
    (h : Helpers) (garbage : Msg) (c : Coord)
    → AllHelp c.size h
    → All (λ p. p.state ≡ running) c.procs
    → length c.procs ≡ c.size
    → 0 < c.size
    → c.size < 4294967296
    → Does (λ r _. r ≡ complete) (coord_do_checkpoint (schedule_of h) garbage c)
unfolding coord_do_checkpoint
do_checkpoint-Does h garbage c help states number positive small =
    let some : (c.size == 0) ≡ false = ground arith in
    rw (prepare-Does c.size h.first [] c help.first number, some)
      (bind (suspend-Does c.size h.asked h.answered c help.asked help.answered help.ready states)
        (λ _ b (ready, count, size).
          take_checkpoint-Does c.size h garbage b help ready (count ∙ number)
            (omega (arith, size, small))))

-- A checkpoint of running processes that all do their part returns, and is complete. There is at
-- least one process and fewer than 2 ^ 32, the size is that of the list, each process lives, can be
-- written to, is ready for each barrier and answers each request in the round after it, and the
-- directory and the manifest can be written.
pub do_checkpoint_returns :
    (h : Helpers) (garbage : Msg) (c : Coord)
    → AllHelp c.size h
    → All (λ p. p.state ≡ running) c.procs
    → length c.procs ≡ c.size
    → 0 < c.size
    → c.size < 4294967296
    → (c' : Coord) × (coord_do_checkpoint (schedule_of h) garbage c ≡ returned complete c')
      × IsComplete c.epoch c'
do_checkpoint_returns h garbage c help states number positive small =
    let (r, c', e, done) =
      returned_of (do_checkpoint-Does h garbage c help states number positive small) in
    let post = do_checkpoint_complete (schedule_of h) garbage c in
    (c', e ∙ ap (λ x. returned x c') done, of_returned (rw e at post) done)
