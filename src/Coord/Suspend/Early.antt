-- ===== src/Coord/Suspend/Early.antt =====
-- When the suspension of xnd/coordinator/xnd_coord.c ends: after two passes over processes that
-- answer, and too early where a process dies in the pass that counts it as ready.
use ckpt.Prelude.{
  ℕ, ◌≡◌, refl, sym, subst, true, false, none, List, [], ◌∷◌, ◌==◌, length, map, All, Bool-cases,
  inl, inr, arith,
}
use ckpt.ProcList.{ProcState, running, recv_ckpt_request, ready_for_ckpt, Proc}
use ckpt.Coord.Base.{Msg, Coord, returned, aborted, World}
use ckpt.Coord.Base.Ends.{of_returned}
use ckpt.Coord.Barrier.{preckpt, coord_release_barrier}
use ckpt.Coord.Barrier.Laws.{release_aborts}
use ckpt.Coord.Suspend.{suspend_visit, answers_ready, Pass, suspend_pass, coord_suspend_processes}
use ckpt.Coord.Suspend.Laws.{
  in_state, AllAlive, visited, pass_step, pass_alive, after_pass, suspend_step, suspend_ready,
}

abbrev pub IsIn : ProcState → Proc → Type 0
IsIn s p = p.state ≡ s

visit_running :
    (w : World) (p : Proc) (s : ProcState)
    → w.writable p.fd ≡ true
    → s ≡ running
    → ((suspend_visit w p s).1 ≡ 0) × ((suspend_visit w p s).0 ≡ recv_ckpt_request)
unfolding suspend_visit
visit_running w p s up e = rw (e, up) (refl, refl)

visit_recv :
    (w : World) (p : Proc) (s : ProcState)
    → answers_ready (w.incoming p.fd) ≡ true
    → s ≡ recv_ckpt_request
    → (suspend_visit w p s).1 ≡ 1
unfolding suspend_visit
visit_recv w p s up e = rw (e, up)

-- The first pass sends the request to every running process and counts none as ready.
pass_running :
    (w : World) (ps : List Proc) (c : Coord)
    → AllAlive w
    → ((fd : ℕ) → w.writable fd ≡ true)
    → All (IsIn running) ps
    → ((suspend_pass w ps c).ready ≡ 0) × All (IsIn recv_ckpt_request) (suspend_pass w ps c).kept
pass_running w [] c alive up all = unfold suspend_pass in (refl, tt)
pass_running w (p ∷ ps) c alive up all =
    let (zero, asked) = visit_running w p p.state (up p.fd) all.0 in
    let (nobody, rest) = pass_running w ps (visited w p c) alive up all.1 in
    rw (pass_step w p ps c (alive p.real_pid)) (omega (arith, zero, nobody), (asked, rest))

-- The second pass finds the answer of each.
pass_recv :
    (w : World) (ps : List Proc) (c : Coord)
    → AllAlive w
    → ((fd : ℕ) → answers_ready (w.incoming fd) ≡ true)
    → All (IsIn recv_ckpt_request) ps
    → (suspend_pass w ps c).ready ≡ length ps
pass_recv w [] c alive answers all = unfold suspend_pass in refl
pass_recv w (p ∷ ps) c alive answers all = rw (pass_step w p ps c (alive p.real_pid)) (
    omega (
      arith,
      visit_recv w p p.state (answers p.fd) all.0,
      pass_recv w ps (visited w p c) alive answers all.1,
    ))

returns_second :
    (first second : World) (ws : List World) (c : Coord)
    → AllAlive first
    → AllAlive second
    → ((fd : ℕ) → first.writable fd ≡ true)
    → ((fd : ℕ) → answers_ready (second.incoming fd) ≡ true)
    → All (IsIn running) c.procs
    → (c' : Coord) × (coord_suspend_processes (first ∷ second ∷ ws) c ≡ returned tt c')
returns_second first second ws c alive alive' up answers all =
    let r = suspend_pass first c.procs c in
    let (_, asked) = pass_running first c.procs c alive up all in
    let s = suspend_pass second r.kept (after_pass r) in
    let counts = pass_alive second r.kept (after_pass r) alive' in
    let done : (s.ready == s.total) ≡ true =
      ground (arith, pass_recv second r.kept (after_pass r) alive' answers asked, counts.total) in
    rw (suspend_step first (second ∷ ws) c) (elim (Bool-cases (r.ready == r.total)) [
      | inl empty ↦ (after_pass r, rw empty)
      | inr more ↦ (after_pass s, rw more (rw (suspend_step second ws (after_pass r)) (rw done)))
    ])

-- Processes that are running, live on, can be written to and answer in the next pass are all
-- suspended after two passes, and the list is as before but for the states.
pub suspend_terminates :
    (first second : World) (ws : List World) (c : Coord)
    → AllAlive first
    → AllAlive second
    → All AllAlive ws
    → ((fd : ℕ) → first.writable fd ≡ true)
    → ((fd : ℕ) → answers_ready (second.incoming fd) ≡ true)
    → All (IsIn running) c.procs
    → (c' : Coord) × (coord_suspend_processes (first ∷ second ∷ ws) c ≡ returned tt c')
      × (c'.procs ≡ map (in_state ready_for_ckpt) c.procs)
suspend_terminates first second ws c alive alive' later up answers all =
    let (c', e) = returns_second first second ws c alive alive' up answers all in
    let post = suspend_ready (first ∷ second ∷ ws) c (alive, (alive', later)) in
    (c', e, (of_returned (rw e at post)).0)

pass_early :
    (w : World) (c : Coord) (p q : Proc)
    → p.state ≡ ready_for_ckpt
    → q.state ≡ recv_ckpt_request
    → w.alive p.real_pid ≡ false
    → w.alive q.real_pid ≡ true
    → w.incoming q.fd ≡ none
    → ((suspend_pass w (p ∷ q ∷ []) c).ready ≡ 1)
      × ((suspend_pass w (p ∷ q ∷ []) c).total ≡ 1)
      × ((suspend_pass w (p ∷ q ∷ []) c).kept ≡ q ∷ [])
unfolding suspend_pass suspend_visit
pass_early w c p q ready waiting dead here silent = ground arith

-- A process that is ready and dies in the pass that counts it makes the suspension end although the
-- other process of the list has not answered. The barrier that follows then fails its assertion.
pub suspend_early :
    (w : World) (ws : List World) (c : Coord) (p q : Proc)
    → c.procs ≡ p ∷ q ∷ []
    → p.state ≡ ready_for_ckpt
    → q.state ≡ recv_ckpt_request
    → w.alive p.real_pid ≡ false
    → w.alive q.real_pid ≡ true
    → w.incoming q.fd ≡ none
    → (c' : Coord) × (coord_suspend_processes (w ∷ ws) c ≡ returned tt c')
      × (c'.procs ≡ q ∷ [])
      × ((w' : World) (garbage : Msg) → coord_release_barrier w' garbage preckpt c' ≡ aborted)
suspend_early w ws c p q two ready waiting dead here silent =
    let (one, total, kept) = facts in
    let same : (r.ready == r.total) ≡ true = ground (arith, one, total) in
    (
      after_pass r,
      rw (suspend_step w ws c) (rw same),
      kept,
      λ w' garbage. release_aborts preckpt w' garbage (after_pass r) q [] kept (rw waiting),
    )
  where
    r : Pass
    r = suspend_pass w c.procs c

    facts : (r.ready ≡ 1) × (r.total ≡ 1) × (r.kept ≡ q ∷ [])
    facts =
        subst
          (λ ps.
            ((suspend_pass w ps c).ready ≡ 1)
            × ((suspend_pass w ps c).total ≡ 1)
            × ((suspend_pass w ps c).kept ≡ q ∷ []))
          (sym two) (pass_early w c p q ready waiting dead here silent)
