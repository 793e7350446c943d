-- ===== src/Coord/Suspend/Laws.antt =====
-- The suspension of xnd/coordinator/xnd_coord.c while no process dies.
use ckpt.Prelude.{
  ℕ, suc, ◌+◌, ◌≤◌, ◌≡◌, refl, ◌∙◌, ap, ap₂, true, List, [], ◌∷◌, ◌++◌, ◌==◌, if◌then◌else◌, length,
  map, All, Bool-cases, inl, inr, arith,
}
use ckpt.ProcList.{ProcState, running, recv_ckpt_request, ready_for_ckpt, Proc}
use ckpt.Coord.Base.{Coord, returned, World}
use ckpt.Coord.Base.Ends
use ckpt.Coord.Base.Ends.{Ends, returns, waits}
use ckpt.Coord.Suspend.{suspend_visit, Pass, suspend_pass, coord_suspend_processes}

abbrev pub in_state : ProcState → Proc → Proc
in_state s p = record p { state = s }

-- `kill(pid, 0)` finds every process.
abbrev pub AllAlive : World → Type 0
AllAlive w = (real : ℕ) → w.alive real ≡ true

-- A visit adds one to `ready` exactly if it leaves the process ready, and else nothing.
visit_one :
    (w : World) (p : Proc) (s : ProcState)
    → ((suspend_visit w p s).1 ≤ 1)
      × ((suspend_visit w p s).1 ≡ 1 → (suspend_visit w p s).0 ≡ ready_for_ckpt)
unfolding suspend_visit
visit_one w p running = ground arith
visit_one w p recv_ckpt_request = ground arith
visit_one w p ready_for_ckpt = ground arith
visit_one w p other = ground arith

-- The state behind the visit of one process that lives.
abbrev pub visited : World → Proc → Coord → Coord
visited w p c = record c { log = c.log ++ (suspend_visit w p p.state).2 }

-- What a pass leaves of a list of processes none of which dies.
pub record Counts (ps : List Proc) (c : Coord) (r : Pass) : Type 0 where
  pub total : r.total ≡ length ps
  pub ready : r.ready ≤ length ps
  pub kept : map (in_state ready_for_ckpt) r.kept ≡ map (in_state ready_for_ckpt) ps
  pub all : r.ready ≡ length ps → r.kept ≡ map (in_state ready_for_ckpt) ps
  pub table : r.coord.table ≡ c.table
  pub size : r.coord.size ≡ c.size
  pub next_virt_pid : r.coord.next_virt_pid ≡ c.next_virt_pid
  pub next_xnd_pid : r.coord.next_xnd_pid ≡ c.next_xnd_pid

-- A pass over a process that lives.
abbrev pub counted : World → Proc → Pass → Pass
counted w p rest = record {
  kept = in_state (suspend_visit w p p.state).0 p ∷ rest.kept;
  ready = (suspend_visit w p p.state).1 + rest.ready;
  total = suc rest.total;
  coord = rest.coord;
}

pub pass_step :
    (w : World) (p : Proc) (ps : List Proc) (c : Coord)
    → w.alive p.real_pid ≡ true
    → suspend_pass w (p ∷ ps) c ≡ counted w p (suspend_pass w ps (visited w p c))
unfolding suspend_pass
pass_step w p ps c here = rw here

-- The cons of the visited process is that of the ready one.
visited_ready :
    (w : World) (p : Proc) (ps qs : List Proc) (ready : ℕ)
    → (suspend_visit w p p.state).1 + ready ≡ suc (length ps)
    → ready ≤ length ps
    → (ready ≡ length ps → qs ≡ map (in_state ready_for_ckpt) ps)
    → in_state (suspend_visit w p p.state).0 p ∷ qs ≡ map (in_state ready_for_ckpt) (p ∷ ps)
visited_ready w p ps qs ready e le all =
    let (one, becomes) = visit_one w p p.state in
    ap₂ (λ s rest. in_state s p ∷ rest) (becomes (omega arith)) (all (omega arith))

pub pass_alive :
    (w : World) (ps : List Proc) (c : Coord) → AllAlive w → Counts ps c (suspend_pass w ps c)
pass_alive w [] c alive =
    unfold suspend_pass in
    record {
      total = refl;
      ready = omega arith;
      kept = refl;
      all = λ e. refl;
      table = refl;
      size = refl;
      next_virt_pid = refl;
      next_xnd_pid = refl;
    }
pass_alive w (p ∷ ps) c alive =
    let (one, becomes) = visit_one w p p.state in
    let ih = pass_alive w ps (visited w p c) alive in
    rw (pass_step w p ps c (alive p.real_pid)) (record {
      total = omega (arith, ih.total);
      ready = omega (arith, ih.ready);
      kept = ap (λ rest. in_state ready_for_ckpt p ∷ rest) ih.kept;
      all = λ e. visited_ready w p ps _ _ e ih.ready ih.all;
      table = ih.table;
      size = ih.size;
      next_virt_pid = ih.next_virt_pid;
      next_xnd_pid = ih.next_xnd_pid;
    })

abbrev pub after_pass : Pass → Coord
after_pass r = record (r.coord) { procs = r.kept }

pub suspend_step :
    (w : World) (ws : List World) (c : Coord)
    → coord_suspend_processes (w ∷ ws) c ≡ (
        if (suspend_pass w c.procs c).ready == (suspend_pass w c.procs c).total
        then returned tt (after_pass (suspend_pass w c.procs c))
        else coord_suspend_processes ws (after_pass (suspend_pass w c.procs c)))
unfolding coord_suspend_processes
suspend_step w ws c = refl

-- While no process dies, a suspension that ends has every process of the list ready and as it was
-- but for its state, in the same order, and the table, the size and the next ids are as they were.
pub suspend_ready :
    (ws : List World) (c : Coord)
    → All AllAlive ws
    → Ends
        (λ _ c'.
          (c'.procs ≡ map (in_state ready_for_ckpt) c.procs)
          × (c'.table ≡ c.table)
          × (c'.size ≡ c.size)
          × (c'.next_virt_pid ≡ c.next_virt_pid)
          × (c'.next_xnd_pid ≡ c.next_xnd_pid))
        (coord_suspend_processes ws c)
suspend_ready [] c alive = unfold coord_suspend_processes in waits
suspend_ready (w ∷ ws) c alive =
    let r = suspend_pass w c.procs c in
    let ih = pass_alive w c.procs c alive.0 in
    rw (suspend_step w ws c) (elim (Bool-cases (r.ready == r.total)) [
      | inl done ↦ rw done (
          returns (
            ih.all (ground (arith, ih.total)),
            ih.table,
            ih.size,
            ih.next_virt_pid,
            ih.next_xnd_pid,
          ))
      | inr more ↦ rw more (
          Ends.mono (suspend_ready ws (after_pass r) alive.1)
            (λ a c' (procs, table, size, virt, xnd). (
              procs ∙ ih.kept,
              table ∙ ih.table,
              size ∙ ih.size,
              virt ∙ ih.next_virt_pid,
              xnd ∙ ih.next_xnd_pid,
            )))
    ])
