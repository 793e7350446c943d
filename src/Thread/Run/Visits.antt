-- ===== src/Thread/Run/Visits.antt =====
-- What the visits of ckpt.Thread.Suspend find out about a thread, and what a scan keeps by them.
use ckpt.Prelude.{ℕ, ◌+◌, ◌≤◌, ◌≡◌, ◌≢◌, refl, Bool, false, List, [], ◌∷◌, ◌++◌, All-append, arith}
use ckpt.Thread.Base.{Thread}
use ckpt.Thread.Suspend.{passes, removes, counts, signals, signal, suspend_visit, exit_visit}
use ckpt.Thread.Run.{scanning}
use ckpt.Thread.Run.Invariant.{Counted, Holds}
use ckpt.Thread.Run.Weights.{
  suspending, IsFit, sum, present, due, pending, at_large, not_due, stray,
}

sum-append : (w : Thread → ℕ) (ts us : List Thread) → sum w (ts ++ us) ≡ sum w ts + sum w us
sum-append w [] us = omega arith
sum-append w (t ∷ ts) us = omega (arith, sum-append w ts us)

pub sum-snoc :
    (w : Thread → ℕ) (ts : List Thread) (t : Thread) → sum w (ts ++ (t ∷ [])) ≡ sum w ts + w t
sum-snoc w ts t = omega (arith, sum-append w ts (t ∷ []))

module _ (ρ : ℕ) (t : Thread) (f : IsFit suspending ρ t) where
  pub removed-absent : suspend_visit t ≡ removes → (present ρ t ≡ 0) × (due ρ t ≡ 0)
  unfolding suspend_visit
  removed-absent e = ground arith

  pub reaped-absent : exit_visit t ≡ removes → (present ρ t ≡ 0) × (due ρ t ≡ 0)
  unfolding exit_visit
  reaped-absent e = ground arith

  pub signal-IsFit : suspend_visit t ≡ signals → IsFit suspending ρ (signal t)
  unfolding suspend_visit
  signal-IsFit e = ground arith

  pub passed_weights :
      suspend_visit t ≡ passes → (due ρ t ≡ 0) × (pending t ≡ 0) × (at_large ρ t ≡ 0)
  unfolding suspend_visit
  passed_weights e = ground arith

  pub counted_weights :
      suspend_visit t ≡ counts → (due ρ t ≤ 1) × (pending t ≡ 0) × (due ρ t ≡ 1 → at_large ρ t ≡ 0)
  unfolding suspend_visit
  counted_weights e = ground arith

  pub found_weights : exit_visit t ≡ passes → (stray t ≡ 0) × (at_large ρ t ≡ 0 → not_due ρ t ≡ 0)
  unfolding exit_visit
  found_weights e = ground arith

pub exit-ne-counts : (t : Thread) → exit_visit t ≢ counts
unfolding exit_visit
exit-ne-counts t e = ground arith

pub exit-ne-signals : (t : Thread) → exit_visit t ≢ signals
unfolding exit_visit
exit-ne-signals t e = ground arith

pub Counted-snoc :
    (ρ n : ℕ) (ts : List Thread) (t : Thread) (d : ℕ) {n' : ℕ}
    → n' ≡ n + d
    → due ρ t ≤ d
    → pending t ≡ 0
    → (due ρ t ≡ d → at_large ρ t ≡ 0)
    → Counted ρ n ts
    → Counted ρ n' (ts ++ (t ∷ []))
Counted-snoc ρ n ts t d sum below sent large h = record {
  bounded = omega (arith, h.bounded, sum-snoc (due ρ) ts t);
  reached = omega (arith, h.reached, sum-snoc pending ts t);
  caught = λ q.
      let both = sum-snoc (due ρ) ts t in
      omega (
        arith,
        h.caught (omega (arith, both)),
        large (omega (arith, both, h.bounded)),
        sum-snoc (at_large ρ) ts t,
      );
}

module _ {ρ m a n : ℕ} {re : Bool} {ts us : List Thread} {t : Thread} where
  -- The scan goes on behind `t`, which it leaves as `t'`.
  pub scan-on :
      {n' : ℕ} {re' : Bool} (t' : Thread)
      → IsFit suspending ρ t'
      → present ρ t' ≡ present ρ t
      → (re' ≡ false → Counted ρ n' (ts ++ (t' ∷ [])))
      → Holds (scanning n re) ρ m a ts (t ∷ us)
      → Holds (scanning n' re') ρ m a (ts ++ (t' ∷ [])) us
  scan-on t' f e c h = record {
    fit_seen = All-append _ ts (t' ∷ []) h.fit_seen (f, tt);
    fit_unseen = h.fit_unseen.1;
    counts = λ q. omega (arith, h.counts refl, sum-snoc (present ρ) ts t', e);
    whole = λ q. cc;
    tally = c;
  }
