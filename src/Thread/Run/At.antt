-- ===== src/Thread/Run/At.antt =====
-- The invariant of ckpt.Thread.Run.Invariant at a place of the checkpoint thread.
use ckpt.Prelude.{ℕ, ◌≡◌, refl, sym, ap, List, []}
use ckpt.Thread.Base.{Thread}
use ckpt.Thread.Run.{Ckpt, aborted, System}
use ckpt.Thread.Run.Invariant.{Tally, Holds, Inv}
use ckpt.Thread.Run.Weights.{suspending, is_calm, phase, xnd_at}

-- What `Inv` says of a system whose checkpoint thread is at `w` with `us` before it.
pub record At (w : Ckpt) (s : System) (us : List Thread) : Type 0 where
  pub at : s.work ≡ w
  pub left : s.unseen ≡ us
  pub xnd : s.xnd ≡ xnd_at w
  pub holds : Holds w s.round s.expected s.arrived s.seen us

pub at-Inv : (s : System) {w : Ckpt} → At w s s.unseen → Inv s
at-Inv s h = record { agrees = rw h.at h.xnd; holds = rw h.at h.holds }

pub Inv-at :
    (s : System) {w : Ckpt} {us : List Thread} → s.work ≡ w → s.unseen ≡ us → Inv s → At w s us
Inv-at s e u inv = record {
  at = e;
  left = u;
  xnd = rw e at inv.agrees;
  holds = rw (e, u) at inv.holds;
}

-- Between two scans the list is whole.
module _ (s : System) where
  pub next-Inv :
      {w w' : Ckpt} {m : ℕ}
      → phase w' ≡ phase w
      → xnd_at w' ≡ xnd_at w
      → Tally w' s.round m s.arrived s.seen []
      → At w s []
      → Inv (record s { work = w'; expected = m })
  next-Inv p x c h = at-Inv _ (record {
    at = refl;
    left = refl;
    xnd = cc (h.xnd);
    holds = record {
      fit_seen = rw p h.holds.fit_seen;
      fit_unseen = rw h.left tt;
      counts = rw (h.left, p) h.holds.counts;
      whole = λ _. h.left;
      tally = rw h.left c;
    };
  })

  pub abort-Inv :
      {w : Ckpt} (us : List Thread)
      → phase w ≡ suspending
      → xnd_at w ≡ xnd_at aborted
      → At w s us
      → Inv (record s { work = aborted })
  abort-Inv us p x h = at-Inv _ (record {
    at = refl;
    left = refl;
    xnd = cc (h.xnd);
    holds = record {
      fit_seen = rw p at h.holds.fit_seen;
      fit_unseen = rw (h.left, sym p) h.holds.fit_unseen;
      counts = λ _. rw h.left (h.holds.counts (ap is_calm p));
      whole = λ q. cc;
      tally = tt;
    };
  })
