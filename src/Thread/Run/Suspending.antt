-- ===== src/Thread/Run/Suspending.antt =====
-- The scan of `suspend_threads` keeps the invariant of ckpt.Thread.Run.Invariant.
use ckpt.Prelude.{ℕ, ◌≡◌, refl, Bool, true, false, List, [], ◌∷◌, arith}
use ckpt.Thread.Base.{Thread}
use ckpt.Thread.Suspend.{
  Visit, passes, removes, counts, rescans, signals, asserts, signal, suspend_visit,
}
use ckpt.Thread.Run.{scanning, System, on_scan, scan}
use ckpt.Thread.Run.Invariant.{Inv}
use ckpt.Thread.Run.Visits.{
  removed-absent, signal-IsFit, passed_weights, counted_weights, scan-on, Counted-snoc,
}
use ckpt.Thread.Run.At.{At, at-Inv, next-Inv, abort-Inv}

module _ (s : System) (n : ℕ) (re : Bool) (t : Thread) (ts : List Thread)
    (h : At (scanning n re) s (t ∷ ts)) where
  on_scan-Inv : (v : Visit) → suspend_visit t ≡ v → Inv (on_scan v t ts n re s)
  on_scan-Inv passes e =
      let (none_due, sent, large) = passed_weights s.round t h.holds.fit_unseen.0 e in
      at-Inv _ (record {
        at = h.at;
        left = refl;
        xnd = h.xnd;
        holds =
            scan-on t h.holds.fit_unseen.0 refl
              (λ q.
                Counted-snoc s.round n s.seen t 0 (omega arith) (omega arith) sent (λ _. large)
                  (h.holds.tally q))
              h.holds;
      })
  on_scan-Inv removes e =
      let (absent, none_due) = removed-absent s.round t h.holds.fit_unseen.0 e in
      at-Inv _ (record {
        at = h.at;
        left = refl;
        xnd = h.xnd;
        holds = record {
          fit_seen = h.holds.fit_seen;
          fit_unseen = h.holds.fit_unseen.1;
          counts = λ q. omega (arith, h.holds.counts q);
          whole = λ q. cc;
          tally = h.holds.tally;
        };
      })
  on_scan-Inv counts e =
      let (one, sent, large) = counted_weights s.round t h.holds.fit_unseen.0 e in
      at-Inv _ (record {
        at = refl;
        left = refl;
        xnd = h.xnd;
        holds =
            scan-on t h.holds.fit_unseen.0 refl
              (λ q.
                Counted-snoc s.round n s.seen t 1 (omega arith) one sent large (h.holds.tally q))
              h.holds;
      })
  on_scan-Inv rescans e = at-Inv _ (record {
    at = refl;
    left = refl;
    xnd = h.xnd;
    holds = scan-on t h.holds.fit_unseen.0 refl (λ q. cc) h.holds;
  })
  on_scan-Inv signals e = at-Inv _ (record {
    at = refl;
    left = refl;
    xnd = h.xnd;
    holds =
        scan-on (signal t) (signal-IsFit s.round t h.holds.fit_unseen.0 e) refl (λ q. cc) h.holds;
  })
  on_scan-Inv asserts e = abort-Inv s (t ∷ ts) refl refl h

module _ (s : System) where
  pub scan-Inv :
      (n : ℕ) (re : Bool) (ts : List Thread) → At (scanning n re) s ts → Inv (scan n re ts s)
  scan-Inv n re (t ∷ ts) h = on_scan-Inv s n re t ts h (suspend_visit t) refl
  scan-Inv n true [] h = next-Inv s refl refl tt h
  scan-Inv n false [] h = next-Inv s refl refl (h.holds.tally refl) h
