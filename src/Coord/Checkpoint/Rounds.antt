-- ===== src/Coord/Checkpoint/Rounds.antt =====
-- The rounds of a checkpoint of xnd/coordinator/xnd_coord.c in which every process does its part.
use ckpt.Prelude.{
  ℕ, suc, ◌≡◌, refl, ◌∙◌, sym, ap, subst, true, Bool, some, List, [], ◌∷◌, ◌==◌, ==_refl, length,
  length-map, All, arith,
}
use ckpt.ProcList.{ProcState, ckpt_in_progress, ckpt_complete, same_state, Proc}
use ckpt.ProcList.Laws.{same_state_refl}
use ckpt.Coord.Base.Does.{Does, does, bind}
use ckpt.Coord.Base.{Msg, Coord, returned, World, check, coord_recv_msg}
use ckpt.Coord.Suspend.{filter_pass, coord_collective_prepare}
use ckpt.Coord.Suspend.Laws.{AllAlive}
use ckpt.Coord.Barrier.{BarrierType, expected_state, next_state, coord_release_barrier}
use ckpt.Coord.Barrier.Laws.{advance, release_barrier_lem}
use ckpt.Coord.Checkpoint.{answers_done, completion_walk, coord_wait_for_ckpt_completions}
use ckpt.Coord.Checkpoint.Complete.{All-advance}

-- `n` processes, all in the same state, and as many peers.
pub record Crew (s : ProcState) (n : ℕ) (c : Coord) : Type 0 where
  pub states : All (λ p. p.state ≡ s) c.procs
  pub number : length c.procs ≡ n
  pub peers : c.num_peers ≡ n

-- A world in which `n` processes live, can be written to, and are ready for a barrier.
pub record IsHelpful (n : ℕ) (w : World) : Type 0 where
  pub alive : AllAlive w
  pub writable : (fd : ℕ) → w.writable fd ≡ true
  pub selected : w.selected ≡ some n

filter_alive : (w : World) (ps : List Proc) (c : Coord) → AllAlive w → filter_pass w ps c ≡ (ps, c)
unfolding filter_pass
filter_alive w [] c alive = refl
filter_alive w (p ∷ ps) c alive = rw (alive p.real_pid, filter_alive w ps c alive) refl

pub prepare-Does :
    (n : ℕ) (w : World) (ws : List World) (c : Coord)
    → IsHelpful n w
    → length c.procs ≡ n
    → coord_collective_prepare (w ∷ ws) c ≡ returned n c
unfolding coord_collective_prepare
prepare-Does n w ws c h count =
    rw (h.selected, filter_alive w c.procs c h.alive, count, ==_refl n) refl

pub release-Does :
    (type : BarrierType) (n : ℕ) (w : World) (garbage : Msg) (c : Coord)
    → IsHelpful n w
    → Crew (expected_state type) n c
    → Does
        (λ done c'. (done ≡ true) × Crew (next_state type) n c')
        (coord_release_barrier w garbage type c)
release-Does type n w garbage c h crew =
    rw (release_barrier_lem type w garbage c crew.states (writables c.procs)) (
      does (
        refl,
        record {
          states = All-advance type c.procs;
          number = length-map (advance type) c.procs ∙ crew.number;
          peers = crew.peers;
        },
      ))
  where
    writables : (ps : List Proc) → All (λ p. w.writable p.fd ≡ true) ps
    writables [] = tt
    writables (p ∷ ps) = (h.writable p.fd, writables ps)

walk-Does :
    (w : World) (ps : List Proc) (c : Coord)
    → ((fd : ℕ) → answers_done (coord_recv_msg w fd) ≡ true)
    → All (λ p. p.state ≡ ckpt_in_progress) ps
    → Does
        (λ r c'.
          (r.1 ≡ length ps)
          × (length r.0 ≡ length ps)
          × All (λ p. p.state ≡ ckpt_complete) r.0
          × (c' ≡ c))
        (completion_walk w ps c)
unfolding completion_walk
walk-Does w [] c answers states = does (refl, refl, tt, refl)
walk-Does w (p ∷ ps) c answers states =
    let same : same_state p.state ckpt_in_progress ≡ true =
      rw (states.0) (same_state_refl ckpt_in_progress) in
    rw same (
      bind (walk-Does w ps c answers states.1) (λ r c' (total, len, all, same').
        rw (answers p.fd) (does (ap suc total, ap suc len, (refl, all), same'))))

-- The completions of as many processes as there are peers.
peers_complete :
    (w : World) (ws : List World) (finishing : World) (c : Coord)
    → IsHelpful c.num_peers w
    → ((fd : ℕ) → answers_done (coord_recv_msg finishing fd) ≡ true)
    → Crew ckpt_in_progress c.num_peers c
    → Does
        (λ _. Crew ckpt_complete c.num_peers)
        (coord_wait_for_ckpt_completions (w ∷ ws) finishing c)
unfolding coord_wait_for_ckpt_completions
peers_complete w ws finishing c h answers crew =
    rw (prepare-Does c.num_peers w ws c h crew.number, ==_refl c.num_peers)
      (bind (walk-Does finishing c.procs c answers crew.states) (λ r c' (total, len, all, same).
        let right : (r.1 == c.num_peers) ≡ true = ground (arith, total, crew.number) in
        rw right (
          does (record {
            states = all;
            number = len ∙ crew.number;
            peers = ap (λ (d : Coord). d.num_peers) same;
          }))))

pub completions-Does :
    (n : ℕ) (w : World) (ws : List World) (finishing : World) (c : Coord)
    → IsHelpful n w
    → ((fd : ℕ) → answers_done (coord_recv_msg finishing fd) ≡ true)
    → Crew ckpt_in_progress n c
    → Does (λ _. Crew ckpt_complete n) (coord_wait_for_ckpt_completions (w ∷ ws) finishing c)
completions-Does n w ws finishing c h answers crew =
    subst
      (λ m. Does (λ _. Crew ckpt_complete m) (coord_wait_for_ckpt_completions (w ∷ ws) finishing c))
      crew.peers
      (peers_complete w ws finishing c (subst (λ m. IsHelpful m w) (sym crew.peers) h) answers
        (record { states = crew.states; number = crew.number ∙ sym crew.peers; peers = refl }))

pub prepare-Crew :
    (st : ProcState) (n : ℕ) (w : World) (ws : List World) (c : Coord)
    → IsHelpful n w
    → Crew st n c
    → Does (λ total c'. (total ≡ n) × Crew st n c') (coord_collective_prepare (w ∷ ws) c)
prepare-Crew st n w ws c h crew = rw (prepare-Does n w ws c h crew.number) (does (refl, crew))

pub check-Crew :
    (st : ProcState) (n : ℕ) (b : Bool) (c : Coord)
    → b ≡ true
    → Crew st n c
    → Does (λ _. Crew st n) (check b c)
check-Crew st n b c right crew = rw right (does crew)
