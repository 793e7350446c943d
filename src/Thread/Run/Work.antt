-- ===== src/Thread/Run/Work.antt =====
-- The steps
use ckpt.Prelude.{ℕ, suc, ◌≤◌, refl, false, List, [], All, arith}
use ckpt.Thread.Base.{Thread}
use ckpt.Thread.Run.{
  xnd_running, xnd_ckpt_pending, xnd_susp_in_prog, xnd_ckpt_in_prog, idle, requested, again,
  scanning, exits, reaping, settled, arriving, writing, System,
}
use ckpt.Thread.Run.Invariant.{Holds, Inv}
use ckpt.Thread.Run.At.{At}
use ckpt.Thread.Run.Parked.{
  Parked, renew_all, all_absent, gather_all, presents-le-dues, all-Parked, part_all,
}

-- While the checkpoint thread writes the checkpoint, every thread is parked.
pub writing-Parked : {ρ m a : ℕ} {ts : List Thread} → Holds writing ρ m a ts [] → All (Parked ρ) ts
writing-Parked {ρ} {ts} h =
    let dues = presents-le-dues ρ ts h.fit_seen in
    let arrivals = h.counts refl in
    all-Parked ρ ts h.fit_seen (h.tally.0.caught (omega (arith, h.tally.1)))
      (omega (arith, h.tally.1, h.tally.0.bounded))

module _ (s : System) where
  pub begin-Inv : At idle s s.unseen → Inv (record s { xnd = xnd_ckpt_pending; work = requested })
  begin-Inv h = record {
    agrees = refl;
    holds = record {
      fit_seen = h.holds.fit_seen;
      fit_unseen = h.holds.fit_unseen;
      counts = λ c. cc;
      whole = h.holds.whole;
      tally = tt;
    };
  }

  pub suspend-Inv :
      At requested s []
      → Inv (record s { xnd = xnd_susp_in_prog; arrived = 0; round = suc s.round; work = again })
  suspend-Inv h =
      let fit = renew_all s.round s.seen h.holds.fit_seen in
      record {
        agrees = refl;
        holds = record {
          fit_seen = fit;
          fit_unseen = rw h.left tt;
          counts = λ c. rw h.left (omega (arith, all_absent (suc s.round) s.seen fit));
          whole = λ c. h.left;
          tally = tt;
        };
      }

  pub scan_first-Inv :
      At again s [] → Inv (record s { seen = []; unseen = s.seen; work = scanning 0 false })
  scan_first-Inv h = record {
    agrees = h.xnd;
    holds = record {
      fit_seen = tt;
      fit_unseen = h.holds.fit_seen;
      counts = λ c. omega (arith, h.holds.counts refl);
      whole = λ c. cc;
      tally = λ c. record { bounded = omega arith; reached = refl; caught = λ d. refl };
    };
  }

  pub reap_first-Inv :
      At exits s [] → Inv (record s { seen = []; unseen = s.seen; work = reaping 0 0 })
  reap_first-Inv h = record {
    agrees = h.xnd;
    holds = record {
      fit_seen = tt;
      fit_unseen = h.holds.fit_seen;
      counts = λ c. omega (arith, h.holds.counts refl);
      whole = λ c. cc;
      tally = record {
        fewer = omega arith;
        bounded = omega (arith, h.holds.tally.bounded);
        reached_seen = refl;
        reached_unseen = h.holds.tally.reached;
        caught_seen = λ d. refl;
        caught_unseen = λ d. h.holds.tally.caught (omega arith);
        clear = λ d. refl;
        all_due = λ d e. refl;
      };
    };
  }

  pub gather-Inv : At settled s [] → Inv (record s { xnd = xnd_ckpt_in_prog; work = arriving })
  gather-Inv h = record {
    agrees = refl;
    holds = record {
      fit_seen =
          gather_all s.round s.seen h.holds.tally.reached h.holds.tally.clear h.holds.fit_seen;
      fit_unseen = rw h.left tt;
      counts = λ c. rw h.left (h.holds.counts refl);
      whole = λ c. h.left;
      tally = h.holds.tally;
    };
  }

  pub write-Inv : s.expected ≤ s.arrived → At arriving s [] → Inv (record s { work = writing })
  write-Inv le h = record {
    agrees = h.xnd;
    holds = record {
      fit_seen = h.holds.fit_seen;
      fit_unseen = rw h.left tt;
      counts = λ c. rw h.left (h.holds.counts refl);
      whole = λ c. h.left;
      tally = (h.holds.tally, le);
    };
  }

  pub resume-Inv : At writing s [] → Inv (record s { xnd = xnd_running; work = idle })
  resume-Inv h = record {
    agrees = refl;
    holds = record {
      fit_seen = part_all s.round s.seen (writing-Parked h.holds) h.holds.fit_seen;
      fit_unseen = rw h.left tt;
      counts = λ c. cc;
      whole = λ c. h.left;
      tally = tt;
    };
  }
