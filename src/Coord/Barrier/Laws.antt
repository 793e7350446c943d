-- ===== src/Coord/Barrier/Laws.antt =====
-- The barriers of xnd/coordinator/xnd_coord.c: what a release does to the processes and sends.
use ckpt.Prelude.{
  ℕ, ◌≡◌, refl, sym, ap, ap₂, subst, true, false, Bool, List, [], ◌∷◌, ◌++◌, map, All, Bool-cases,
  inl, inr,
}
use mathlib.Core.List.{append-nil, append_assoc}
use ckpt.ProcList.{same_state, Proc}
use ckpt.ProcList.Laws.{same_state_eq, same_state_refl}
use ckpt.Coord.Base.{
  Msg, Event, sent, Coord, returned, aborted, pure, emit, and_then, World, coord_send_msg,
}
use ckpt.Coord.Base.Ends
use ckpt.Coord.Base.Ends.{Ends, returns, aborts}
use ckpt.Coord.Barrier.{
  BarrierType, expected_state, next_state, barrier_msg, release_walk, coord_release_barrier,
}

abbrev pub advance : BarrierType → Proc → Proc
advance type p = record p { state = next_state type }

-- One message to each process, in the order of the list.
abbrev pub barrier_events : BarrierType → Msg → ℕ → List Proc → List Event
barrier_events type garbage peers [] = []
barrier_events type garbage peers (p ∷ ps) =
    sent p.fd (barrier_msg type garbage peers p) ∷ barrier_events type garbage peers ps

abbrev pub logged : List Event → Coord → Coord
logged events c = record c { log = c.log ++ events }

-- A process in another state than the barrier expects, at the head of the list, fails the assertion.
pub release_aborts :
    (type : BarrierType) (w : World) (garbage : Msg) (c : Coord) (p : Proc) (ps : List Proc)
    → c.procs ≡ p ∷ ps
    → same_state p.state (expected_state type) ≡ false
    → coord_release_barrier w garbage type c ≡ aborted
unfolding coord_release_barrier
release_aborts type w garbage c p ps e other =
    subst
      (λ qs.
        and_then (release_walk type w garbage c.num_peers qs c)
          (λ (procs, all) c'. returned all (record c' { procs = procs }))
        ≡ aborted)
      (sym e) (unfold release_walk in rw other)

release_step :
    (type : BarrierType) (w : World) (garbage : Msg) (peers : ℕ) (p : Proc) (ps : List Proc)
    (c : Coord)
    → same_state p.state (expected_state type) ≡ true
    → w.writable p.fd ≡ true
    → release_walk type w garbage peers (p ∷ ps) c
      ≡ and_then
          (release_walk type w garbage peers ps
            (emit (sent p.fd (barrier_msg type garbage peers p)) c))
          (λ (rest, all). pure (advance type p ∷ rest, all))
unfolding release_walk coord_send_msg
release_step type w garbage peers p ps c same up = rw (same, up)

logged_twice :
    (e : Event) (events : List Event) (c : Coord) → logged events (emit e c) ≡ logged (e ∷ events) c
logged_twice e events c = ap (λ l. record c { log = l }) (append_assoc c.log (e ∷ []) events)

-- A release whose messages all go out.
release_walk_lem :
    (type : BarrierType) (w : World) (garbage : Msg) (peers : ℕ) (ps : List Proc) (c : Coord)
    → All (λ p. p.state ≡ expected_state type) ps
    → All (λ p. w.writable p.fd ≡ true) ps
    → release_walk type w garbage peers ps c
      ≡ returned (map (advance type) ps, true) (logged (barrier_events type garbage peers ps) c)
release_walk_lem type w garbage peers [] c expected up =
    unfold release_walk in
    ap (λ l. returned ([], true) (record c { log = l })) (sym (append-nil c.log))
release_walk_lem type w garbage peers (p ∷ ps) c expected up =
    let e = sent p.fd (barrier_msg type garbage peers p) in
    let same : same_state p.state (expected_state type) ≡ true =
      subst (λ s. same_state s (expected_state type) ≡ true) (sym expected.0)
        (same_state_refl (expected_state type)) in
    rw (release_step type w garbage peers p ps c same up.0) (
      rw (release_walk_lem type w garbage peers ps (emit e c) expected.1 up.1) (
        ap (returned (map (advance type) (p ∷ ps), true))
          (logged_twice e (barrier_events type garbage peers ps) c)))

-- Where every process is in the state that the barrier expects and can be written to, a release
-- sends each its message, in the order of the list, moves all to the next state, and changes nothing
-- else.
pub release_barrier_lem :
    (type : BarrierType) (w : World) (garbage : Msg) (c : Coord)
    → All (λ p. p.state ≡ expected_state type) c.procs
    → All (λ p. w.writable p.fd ≡ true) c.procs
    → coord_release_barrier w garbage type c
      ≡ returned true (record (logged (barrier_events type garbage c.num_peers c.procs) c) {
        procs = map (advance type) c.procs;
      })
unfolding coord_release_barrier
release_barrier_lem type w garbage c expected up =
    rw (release_walk_lem type w garbage c.num_peers c.procs c expected up)

-- What a walk proves by returning `true`, and what it leaves alone.
record Walked (type : BarrierType) (ps : List Proc) (c : Coord) (r : List Proc × Bool) (c' : Coord)
    : Type 0 where
  was : r.1 ≡ true → All (λ p. p.state ≡ expected_state type) ps
  now : r.1 ≡ true → r.0 ≡ map (advance type) ps
  events : c' ≡ record c { log = c'.log }

release_walk-Walked :
    (type : BarrierType) (w : World) (garbage : Msg) (peers : ℕ) (ps : List Proc) (c : Coord)
    → Ends (Walked type ps c) (release_walk type w garbage peers ps c)
release_walk-Walked type w garbage peers [] c =
    unfold release_walk in returns (record { was = λ e. tt; now = λ e. refl; events = refl })
release_walk-Walked type w garbage peers (p ∷ ps) c =
    elim (Bool-cases (same_state p.state (expected_state type))) [
      | inl same ↦ elim (Bool-cases (w.writable p.fd)) [
        | inl up ↦ rw (release_step type w garbage peers p ps c same up) (
            Ends.bind (release_walk-Walked type w garbage peers ps (emit _ c)) (λ r c' k.
              returns (record {
                was = λ e. (same_state_eq _ _ same, k.was e);
                now = λ e. ap (λ rest. advance type p ∷ rest) (k.now e);
                events = k.events;
              })))
        | inr down ↦
            unfold release_walk coord_send_msg in
            rw (same, down) (returns (record { was = λ e. cc; now = λ e. cc; events = refl }))
      ]
      | inr other ↦ unfold release_walk in rw other aborts
    ]

-- A release that returns 0 found every process in the state that the barrier expects, moved all to
-- the next state, and changed nothing but that and the log.
pub release_barrier_done :
    (type : BarrierType) (w : World) (garbage : Msg) (c : Coord)
    → Ends
        (λ done c'.
          done ≡ true
          → All (λ p. p.state ≡ expected_state type) c.procs
            × (c' ≡ record c { procs = map (advance type) c.procs; log = c'.log }))
        (coord_release_barrier w garbage type c)
unfolding coord_release_barrier
release_barrier_done type w garbage c =
    Ends.bind (release_walk-Walked type w garbage c.num_peers c.procs c) (λ r c' k. returns (λ e.
      (k.was e, ap₂ (λ (d : Coord) (ps : List Proc). record d { procs = ps }) k.events (k.now e))))
