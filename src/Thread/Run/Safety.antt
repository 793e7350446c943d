-- ===== src/Thread/Run/Safety.antt =====
-- Every step of ckpt.Thread.Run keeps the invariant, and every reachable system has it.
use ckpt.Prelude.{ℕ, ◌≤◌, ◌≡◌, refl, subst, false, some, List, [], ◌∷◌, All, arith}
use ckpt.Thread.Base.{Thread, thread_init}
use ckpt.Thread.Run.{
  Ckpt, idle, requested, again, scanning, exits, reaping, settled, arriving, writing, aborted,
  System, Creates, this, later, Step, works, turn_seen, turn_unseen, add, Reach, initial, step,
  ckpt_work, ckpt_step, locks_list,
}
use ckpt.Thread.Run.Invariant.{Full, Tally, Holds, Inv}
use ckpt.Thread.Run.Weights.{phase, IsFit, sum, at_large, not_due}
use ckpt.Thread.Run.Scan.{turn_seen-Holds, turn_unseen-Holds}
use ckpt.Thread.Run.At.{At, Inv-at}
use ckpt.Thread.Run.Work.{
  begin-Inv, suspend-Inv, scan_first-Inv, reap_first-Inv, gather-Inv, write-Inv, resume-Inv,
}
use ckpt.Thread.Run.Suspending.{scan-Inv}
use ckpt.Thread.Run.Reaping.{reap_next-Inv}

module _ (s s' : System) (inv : Inv s) where
  -- Outside a scan.
  pub rest : {w : Ckpt} → s.work ≡ w → locks_list w ≡ false → At w s []
  rest e l = Inv-at s e (inv.holds.whole (rw e l)) inv

  work-Inv : (w : Ckpt) → s.work ≡ w → ckpt_work w s ≡ some s' → Inv s'
  work-Inv idle e q = subst Inv (ground arith) (begin-Inv s (Inv-at s e refl inv))
  work-Inv requested e q = subst Inv (ground arith) (suspend-Inv s (rest e refl))
  work-Inv again e q = subst Inv (ground arith) (scan_first-Inv s (rest e refl))
  work-Inv (scanning n re) e q =
      subst Inv (ground arith) (scan-Inv s n re s.unseen (Inv-at s e refl inv))
  work-Inv exits e q = subst Inv (ground arith) (reap_first-Inv s (rest e refl))
  work-Inv (reaping x y) e q =
      subst Inv (ground arith) (reap_next-Inv s x y s.unseen (Inv-at s e refl inv))
  work-Inv settled e q = subst Inv (ground arith) (gather-Inv s (rest e refl))
  work-Inv arriving e q = subst Inv (ground arith) (write-Inv s (ground arith) (rest e refl))
  work-Inv writing e q = subst Inv (ground arith) (resume-Inv s (rest e refl))
  work-Inv aborted e q = cc

-- A thread in `__pthread_create_hook` is in the way of the end of a suspension.
creator_at_large :
    (w : Ckpt) {c : ℕ} {ts : List Thread} (ρ : ℕ)
    → Creates c ts
    → All (IsFit (phase w) ρ) ts
    → (1 ≤ sum (at_large ρ) ts) × (1 ≤ sum (not_due ρ) ts)
creator_at_large w {ts = t ∷ ts} ρ (this e) f = ground (arith, f.0)
creator_at_large w ρ (later m) f = omega (arith, creator_at_large w ρ m f.1)

add-Full :
    (ρ m c : ℕ) (w : Ckpt) {ts : List Thread}
    → Creates c ts
    → All (IsFit (phase w) ρ) ts
    → Full ρ m ts
    → Full ρ m (thread_init c ∷ ts)
add-Full ρ m c w made f h = record {
  bounded = omega (arith, h.bounded);
  reached = omega (arith, h.reached);
  clear = omega (arith, h.clear);
  caught = λ q. absurd (omega (arith, h.caught (omega arith), creator_at_large w ρ made f));
}

add-Tally :
    (ρ m a c : ℕ) {ts : List Thread} (w : Ckpt)
    → locks_list w ≡ false
    → Creates c ts
    → All (IsFit (phase w) ρ) ts
    → Tally w ρ m a ts []
    → Tally w ρ m a (thread_init c ∷ ts) []
add-Tally ρ m a c idle l made f h = tt
add-Tally ρ m a c requested l made f h = tt
add-Tally ρ m a c again l made f h = tt
add-Tally ρ m a c exits l made f h = record {
  bounded = omega (arith, h.bounded);
  reached = omega (arith, h.reached);
  caught = λ q. absurd (omega (arith, h.caught (omega arith), creator_at_large exits ρ made f));
}
add-Tally ρ m a c settled l made f h = add-Full ρ m c settled made f h
add-Tally ρ m a c arriving l made f h = add-Full ρ m c arriving made f h
add-Tally ρ m a c writing l made f h = (add-Full ρ m c writing made f h.0, h.1)
add-Tally ρ m a c _ l made f h = cc

init-IsFit : (w : Ckpt) (ρ c : ℕ) → IsFit (phase w) ρ (thread_init c)
init-IsFit w ρ c = (refl, λ e. cc)

add-Holds :
    (w : Ckpt) {ρ m a c : ℕ} {ts us : List Thread}
    → locks_list w ≡ false
    → Creates c ts
    → Holds w ρ m a ts us
    → Holds w ρ m a (thread_init c ∷ ts) us
add-Holds w {ρ} {m} {a} {c} l made h = record {
  fit_seen = (init-IsFit w ρ c, h.fit_seen);
  fit_unseen = h.fit_unseen;
  counts = λ q. omega (arith, h.counts q);
  whole = h.whole;
  tally = rw (h.whole l) (add-Tally ρ m a c w l made h.fit_seen (rw (h.whole l) at h.tally));
}

pub Step-Inv : {s s' : System} → Step s s' → Inv s → Inv s'
unfolding ckpt_step
Step-Inv {s} (works e) inv = work-Inv s _ inv s.work refl e
Step-Inv {s} (turn_seen m) inv = record {
  agrees = inv.agrees;
  holds = turn_seen-Holds s.work (rw inv.agrees at m) inv.holds;
}
Step-Inv {s} (turn_unseen m) inv = record {
  agrees = inv.agrees;
  holds = turn_unseen-Holds s.work (rw inv.agrees at m) inv.holds;
}
Step-Inv {s} (add l made) inv = record {
  agrees = inv.agrees;
  holds = add-Holds s.work l made inv.holds;
}

pub Reach-Inv : {main : ℕ} {s : System} → Reach main s → Inv s
Reach-Inv initial = record {
  agrees = refl;
  holds = record {
    fit_seen = ((refl, λ e. cc), tt);
    fit_unseen = tt;
    counts = λ c. cc;
    whole = λ c. refl;
    tally = tt;
  };
}
Reach-Inv (step r m) = Step-Inv m (Reach-Inv r)
