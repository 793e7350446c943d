-- ===== src/Thread/Run/Invariant.antt =====
-- The invariant of the runs of ckpt.Thread.Run.
use ckpt.Prelude.{ℕ, ◌+◌, ◌≤◌, ◌≡◌, false, List, [], All}
use ckpt.Thread.Base.{Thread}
use ckpt.Thread.Run.{Ckpt, scanning, exits, reaping, settled, arriving, writing, System, locks_list}
use ckpt.Thread.Run.Weights.{
  phase, is_calm, xnd_at, IsFit, sum, present, due, pending, at_large, not_due, stray,
}

-- What a scan of `suspend_threads` that asks for no other has found: `n` is the number of threads
-- that it has counted.
pub record Counted (ρ n : ℕ) (ts : List Thread) : Type 0 where
  pub bounded : sum (due ρ) ts ≤ n
  pub reached : sum pending ts ≡ 0
  pub caught : n ≤ sum (due ρ) ts → sum (at_large ρ) ts ≡ 0

-- The same when no thread is exiting any more.
pub record Full (ρ n : ℕ) (ts : List Thread) : Type 0 where
  pub bounded : sum (due ρ) ts ≤ n
  pub reached : sum pending ts ≡ 0
  pub clear : sum stray ts ≡ 0
  pub caught : n ≤ sum (due ρ) ts → sum (not_due ρ) ts ≡ 0

-- In the scan of `wait_for_exiting_threads`: `e` and `k` are its counts.
pub record Reaped (ρ n e k : ℕ) (ts us : List Thread) : Type 0 where
  pub fewer : k ≤ e
  pub bounded : sum (due ρ) ts + sum (due ρ) us ≤ n
  pub reached_seen : sum pending ts ≡ 0
  pub reached_unseen : sum pending us ≡ 0
  pub caught_seen : n ≤ sum (due ρ) ts + sum (due ρ) us → sum (at_large ρ) ts ≡ 0
  pub caught_unseen : n ≤ sum (due ρ) ts + sum (due ρ) us → sum (at_large ρ) us ≡ 0
  pub clear : e ≡ k → sum stray ts ≡ 0
  pub all_due : e ≡ k → n ≤ sum (due ρ) ts + sum (due ρ) us → sum (not_due ρ) ts ≡ 0

abbrev pub Tally : Ckpt → ℕ → ℕ → ℕ → List Thread → List Thread → Type 0
Tally (scanning n re) ρ m a ts us = re ≡ false → Counted ρ n ts
Tally exits ρ m a ts us = Counted ρ m ts
Tally (reaping e k) ρ m a ts us = Reaped ρ m e k ts us
Tally settled ρ m a ts us = Full ρ m ts
Tally arriving ρ m a ts us = Full ρ m ts
Tally writing ρ m a ts us = Full ρ m ts × (m ≤ a)
Tally _ ρ m a ts us = Unit

-- The arguments are the fields of a `System` that are not fixed by `work`.
pub record Holds (w : Ckpt) (ρ m a : ℕ) (ts us : List Thread) : Type 0 where
  pub fit_seen : All (IsFit (phase w) ρ) ts
  pub fit_unseen : All (IsFit (phase w) ρ) us
  pub counts : is_calm (phase w) ≡ false → a ≡ sum (present ρ) ts + sum (present ρ) us
  pub whole : locks_list w ≡ false → us ≡ []
  pub tally : Tally w ρ m a ts us

pub record Inv (s : System) : Type 0 where
  pub agrees : s.xnd ≡ xnd_at s.work
  pub holds : Holds s.work s.round s.expected s.arrived s.seen s.unseen
