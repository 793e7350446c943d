-- ===== src/Coord/Checkpoint/Laws.antt =====
-- What the steps of a checkpoint of xnd/coordinator/xnd_coord.c leave alone, and what they count.
use ckpt.Prelude.{
  ℕ, ◌≤◌, ◌≡◌, refl, ◌∙◌, true, List, [], ◌∷◌, ◌==◌, length, All, Bool-cases, Option-cases, inl,
  inr, min, max, arith, minus_one,
}
use ckpt.ProcList.{ckpt_in_progress, ckpt_complete, same_state, Proc}
use ckpt.Coord.Base.{wrote_manifest, emit, Coord, returned, World, coord_recv_msg, coord_exit}
use ckpt.Coord.Base.Ends
use ckpt.Coord.Base.Ends.{Ends, returns, exits, aborts, waits}
use ckpt.Coord.Suspend.{
  dropped, filter_pass, coord_collective_prepare, suspend_visit, suspend_pass,
  coord_suspend_processes,
}
use ckpt.Coord.Suspend.Laws.{after_pass, suspend_step, visited, in_state}
use ckpt.Coord.Checkpoint.{
  answers_done, completion_walk, coord_wait_for_ckpt_completions, max_xnd_pid, min_xnd_pid,
  coord_write_ckpt_manifest,
}

-- A step that is not the end of a checkpoint keeps its epoch and the number of its peers.
pub record Keeps (c c' : Coord) : Type 0 where
  pub epoch : c'.epoch ≡ c.epoch
  pub num_peers : c'.num_peers ≡ c.num_peers

pub Keeps-trans : {a b c : Coord} → Keeps a b → Keeps b c → Keeps a c
Keeps-trans h k = record { epoch = k.epoch ∙ h.epoch; num_peers = k.num_peers ∙ h.num_peers }

dropped-Keeps : (p : Proc) (c : Coord) → Keeps c (dropped p c)
unfolding dropped
dropped-Keeps p c = record { epoch = refl; num_peers = refl }

filter_pass-Keeps : (w : World) (ps : List Proc) (c : Coord) → Keeps c (filter_pass w ps c).1
unfolding filter_pass
filter_pass-Keeps w [] c = record { epoch = refl; num_peers = refl }
filter_pass-Keeps w (p ∷ ps) c = elim (Bool-cases (w.alive p.real_pid)) [
  | inl here ↦ rw here (filter_pass-Keeps w ps c)
  | inr gone ↦ rw gone (Keeps-trans (dropped-Keeps p c) (filter_pass-Keeps w ps (dropped p c)))
]

-- The number that is returned is that of the processes that are left.
pub collective_prepare_lem :
    (ws : List World) (c : Coord)
    → Ends (λ total c'. (total ≡ length c'.procs) × Keeps c c') (coord_collective_prepare ws c)
unfolding coord_collective_prepare coord_exit
collective_prepare_lem [] c = waits
collective_prepare_lem (w ∷ ws) c = elim (Option-cases w.selected) [
  | inl failed ↦ rw failed exits
  | inr (n, got) ↦
      let (kept, c') = filter_pass w c.procs c in
      let k = filter_pass-Keeps w c.procs c in
      rw got (elim (Bool-cases (n == length kept)) [
        | inl done ↦ rw done (returns (refl, record { epoch = k.epoch; num_peers = k.num_peers }))
        | inr more ↦ rw more (
            Ends.mono (collective_prepare_lem ws (record c' { procs = kept }))
              (λ total c'' (count, keeps).
                (count, Keeps-trans (record { epoch = k.epoch; num_peers = k.num_peers }) keeps)))
      ])
]

suspend_pass-Keeps : (w : World) (ps : List Proc) (c : Coord) → Keeps c (suspend_pass w ps c).coord
unfolding suspend_pass
suspend_pass-Keeps w [] c = record { epoch = refl; num_peers = refl }
suspend_pass-Keeps w (p ∷ ps) c = elim (Bool-cases (w.alive p.real_pid)) [
  | inl here ↦ rw here (
      Keeps-trans (record { epoch = refl; num_peers = refl })
        (suspend_pass-Keeps w ps (visited w p c)))
  | inr gone ↦ rw gone (
      Keeps-trans
        (let k = dropped-Keeps (in_state (suspend_visit w p p.state).0 p) (visited w p c) in
          record { epoch = k.epoch; num_peers = k.num_peers })
        (suspend_pass-Keeps w ps
          (dropped (in_state (suspend_visit w p p.state).0 p) (visited w p c))))
]

pub suspend-Keeps :
    (ws : List World) (c : Coord) → Ends (λ _. Keeps c) (coord_suspend_processes ws c)
suspend-Keeps [] c = unfold coord_suspend_processes in waits
suspend-Keeps (w ∷ ws) c =
    let r = suspend_pass w c.procs c in
    let k = suspend_pass-Keeps w c.procs c in
    let here : Keeps c (after_pass r) = record { epoch = k.epoch; num_peers = k.num_peers } in
    rw (suspend_step w ws c) (elim (Bool-cases (r.ready == r.total)) [
      | inl done ↦ rw done (returns here)
      | inr more ↦
          rw more
            (Ends.mono (suspend-Keeps ws (after_pass r)) (λ _ c' later. Keeps-trans here later))
    ])

completion_walk_lem :
    (w : World) (ps : List Proc) (c : Coord)
    → Ends
        (λ r c'.
          (r.1 ≤ length ps)
          × (length r.0 ≡ length ps)
          × (r.1 ≡ length ps → All (λ p. p.state ≡ ckpt_complete) r.0)
          × Keeps c c')
        (completion_walk w ps c)
unfolding completion_walk
completion_walk_lem w [] c =
    returns (omega arith, refl, λ e. tt, record { epoch = refl; num_peers = refl })
completion_walk_lem w (p ∷ ps) c = elim (Bool-cases (same_state p.state ckpt_in_progress)) [
  | inl same ↦ rw same (
      Ends.bind (completion_walk_lem w ps c) (λ r c' (le, len, all, keeps).
        elim (Bool-cases (answers_done (coord_recv_msg w p.fd))) [
          | inl done ↦
              rw done (returns (omega arith, omega arith, λ e. (refl, all (omega arith)), keeps))
          | inr missing ↦
              rw missing (returns (omega arith, omega arith, λ e. absurd (omega arith), keeps))
        ]))
  | inr other ↦ rw other aborts
]

-- The completions that are waited for are those of all peers.
pub completions_lem :
    (ws : List World) (w : World) (c : Coord)
    → Ends
        (λ _ c'.
          All (λ p. p.state ≡ ckpt_complete) c'.procs
          × (length c'.procs ≡ c.num_peers)
          × Keeps c c')
        (coord_wait_for_ckpt_completions ws w c)
unfolding coord_wait_for_ckpt_completions
completions_lem ws w c = Ends.bind (collective_prepare_lem ws c) (λ total c' (count, keeps).
    elim (Bool-cases (total == c.num_peers)) [
      | inl right ↦ rw right (
          Ends.bind (completion_walk_lem w c'.procs c') (λ r c'' (le, len, all, keeps').
            elim (Bool-cases (r.1 == c.num_peers)) [
              | inl done ↦ rw done (
                  returns (
                    all (ground arith),
                    ground arith,
                    record {
                      epoch = keeps'.epoch ∙ keeps.epoch;
                      num_peers = keeps'.num_peers ∙ keeps.num_peers;
                    },
                  ))
              | inr less ↦ rw less (unfold coord_exit in exits)
            ]))
      | inr wrong ↦ rw wrong (unfold coord_exit in exits)
    ])

pub max_xnd_pid_bound :
    (ps : List Proc) (m : ℕ) → (m ≤ max_xnd_pid ps m) × All (λ p. p.xnd_pid ≤ max_xnd_pid ps m) ps
unfolding max_xnd_pid
max_xnd_pid_bound [] m = (omega arith, tt)
max_xnd_pid_bound (p ∷ ps) m =
    let (le, all) = max_xnd_pid_bound ps (max p.xnd_pid m) in (omega arith, (omega arith, all))

pub min_xnd_pid_bound :
    (ps : List Proc) (m : ℕ) → (min_xnd_pid ps m ≤ m) × All (λ p. min_xnd_pid ps m ≤ p.xnd_pid) ps
unfolding min_xnd_pid
min_xnd_pid_bound [] m = (omega arith, tt)
min_xnd_pid_bound (p ∷ ps) m =
    let (le, all) = min_xnd_pid_bound ps (min p.xnd_pid m) in (omega arith, (omega arith, all))

All-bounds :
    (lo hi : ℕ) (ps : List Proc)
    → All (λ p. lo ≤ p.xnd_pid) ps
    → All (λ p. p.xnd_pid ≤ hi) ps
    → All (λ p. (lo ≤ p.xnd_pid) × (p.xnd_pid ≤ hi)) ps
All-bounds lo hi [] below above = tt
All-bounds lo hi (p ∷ ps) below above = ((below.0, above.0), All-bounds lo hi ps below.1 above.1)

-- The manifest that is written holds the number of the peers, and bounds between which the xnd pids
-- of all processes lie; nothing but the log changes.
pub write_manifest_bounds :
    (c : Coord)
    → (lo hi : ℕ) × (coord_write_ckpt_manifest true c
        ≡ returned tt (emit (wrote_manifest c.num_peers lo hi c.xnd_uuid c.epoch) c))
      × All (λ p. (lo ≤ p.xnd_pid) × (p.xnd_pid ≤ hi)) c.procs
unfolding coord_write_ckpt_manifest
write_manifest_bounds c = (
  min_xnd_pid c.procs minus_one,
  max_xnd_pid c.procs 0,
  refl,
  All-bounds _ _ c.procs (min_xnd_pid_bound c.procs minus_one).1 (max_xnd_pid_bound c.procs 0).1,
)
