-- ===== src/Thread/Run/Reaping.antt =====
-- The scan of `wait_for_exiting_threads` keeps the invariant of ckpt.Thread.Run.Invariant.
use ckpt.Prelude.{
  ℕ, ◌+◌, ◌≤◌, ◌≡◌, refl, Bool, true, false, List, [], ◌∷◌, ◌++◌, if◌then◌else◌, ◌==◌, All-append,
  arith,
}
use ckpt.Thread.Base.{Thread}
use ckpt.Thread.Suspend.{Visit, passes, removes, counts, rescans, signals, asserts, exit_visit}
use ckpt.Thread.Run.{exits, reaping, settled, System, on_reap, reap_next}
use ckpt.Thread.Run.Invariant.{Reaped, Holds, Inv}
use ckpt.Thread.Run.Visits.{sum-snoc, reaped-absent, found_weights, exit-ne-counts, exit-ne-signals}
use ckpt.Thread.Run.Weights.{sum, present, due, pending, at_large, not_due, stray}
use ckpt.Thread.Run.At.{At, at-Inv, next-Inv, abort-Inv}

-- The scan of `wait_for_exiting_threads` goes on behind `t`.
Reaped-snoc :
    (ρ n : ℕ) {e k e' k' : ℕ} (ts us : List Thread) (t : Thread)
    → k' ≤ e'
    → (e' ≡ k' → (e ≡ k) × (stray t ≡ 0) × (at_large ρ t ≡ 0 → not_due ρ t ≡ 0))
    → Reaped ρ n e k ts (t ∷ us)
    → Reaped ρ n e' k' (ts ++ (t ∷ [])) us
Reaped-snoc ρ n ts us t fewer same h = record {
  fewer = fewer;
  bounded = omega (arith, h.bounded, dues);
  reached_seen = omega (arith, h.reached_seen, h.reached_unseen, sum-snoc pending ts t);
  reached_unseen = omega (arith, h.reached_unseen);
  caught_seen = λ q. omega (
    arith,
    h.caught_seen (omega (arith, dues)),
    h.caught_unseen (omega (arith, dues)),
    sum-snoc (at_large ρ) ts t,
  );
  caught_unseen = λ q. omega (arith, h.caught_unseen (omega (arith, dues)));
  clear =
      λ q. let (eq, strays, _) = same q in omega (arith, h.clear eq, strays, sum-snoc stray ts t);
  all_due = λ q r.
      let (eq, _, due) = same q in
      omega (
        arith,
        h.all_due eq (omega (arith, dues)),
        due (omega (arith, h.caught_unseen (omega (arith, dues)))),
        sum-snoc (not_due ρ) ts t,
      );
}
  where
    dues : sum (due ρ) (ts ++ (t ∷ [])) ≡ sum (due ρ) ts + due ρ t
    dues = sum-snoc (due ρ) ts t

module _ (s : System) (e k : ℕ) (t : Thread) (ts : List Thread)
    (h : At (reaping e k) s (t ∷ ts)) where
  reap-on :
      {e' k' : ℕ}
      → Reaped s.round s.expected e' k' (s.seen ++ (t ∷ [])) ts
      → Holds (reaping e' k') s.round s.expected s.arrived (s.seen ++ (t ∷ [])) ts
  reap-on r = record {
    fit_seen = All-append _ s.seen (t ∷ []) h.holds.fit_seen (h.holds.fit_unseen.0, tt);
    fit_unseen = h.holds.fit_unseen.1;
    counts = λ q. omega (arith, h.holds.counts refl, sum-snoc (present s.round) s.seen t);
    whole = λ q. cc;
    tally = r;
  }

  on_reap-Inv : (v : Visit) → exit_visit t ≡ v → Inv (on_reap v t ts e k s)
  on_reap-Inv removes q =
      let (absent, none_due) = reaped-absent s.round t h.holds.fit_unseen.0 q in
      let r = h.holds.tally in
      at-Inv _ (record {
        at = refl;
        left = refl;
        xnd = h.xnd;
        holds = record {
          fit_seen = h.holds.fit_seen;
          fit_unseen = h.holds.fit_unseen.1;
          counts = λ c. omega (arith, h.holds.counts refl);
          whole = λ c. cc;
          tally = record {
            fewer = omega (arith, r.fewer);
            bounded = omega (arith, r.bounded);
            reached_seen = r.reached_seen;
            reached_unseen = omega (arith, r.reached_unseen);
            caught_seen = λ c. r.caught_seen (omega arith);
            caught_unseen = λ c. omega (arith, r.caught_unseen (omega arith));
            clear = λ c. r.clear (omega arith);
            all_due = λ c d. r.all_due (omega arith) (omega arith);
          };
        };
      })
  on_reap-Inv rescans q = at-Inv _ (record {
    at = refl;
    left = refl;
    xnd = h.xnd;
    holds = reap-on (
        Reaped-snoc _ _ _ _ _ (omega (arith, h.holds.tally.fewer))
          (λ c. absurd (omega (arith, h.holds.tally.fewer))) h.holds.tally);
  })
  on_reap-Inv passes q =
      let (strays, large) = found_weights s.round t h.holds.fit_unseen.0 q in
      at-Inv _ (record {
        at = h.at;
        left = refl;
        xnd = h.xnd;
        holds =
            reap-on
              (Reaped-snoc _ _ _ _ _ h.holds.tally.fewer (λ c. (c, strays, large)) h.holds.tally);
      })
  on_reap-Inv asserts q = abort-Inv s (t ∷ ts) refl refl h
  on_reap-Inv counts q = absurd (exit-ne-counts t q)
  on_reap-Inv signals q = absurd (exit-ne-signals t q)

module _ (s : System) (e k : ℕ) where
  -- All the exiting threads were killed, or the loop goes on.
  end-Inv :
      (b : Bool)
      → (b ≡ true → e ≡ k)
      → At (reaping e k) s []
      → Inv (if b then record s { work = settled } else record s { work = exits })
  end-Inv true q h =
      let r = h.holds.tally in
      next-Inv s refl refl
        (record {
          bounded = omega (arith, r.bounded);
          reached = r.reached_seen;
          clear = r.clear (q refl);
          caught = λ m. r.all_due (q refl) (omega arith);
        })
        h
  end-Inv false q h =
      let r = h.holds.tally in
      next-Inv s refl refl
        (record {
          bounded = omega (arith, r.bounded);
          reached = r.reached_seen;
          caught = λ m. r.caught_seen (omega arith);
        })
        h

  pub reap_next-Inv : (ts : List Thread) → At (reaping e k) s ts → Inv (reap_next e k ts s)
  reap_next-Inv (t ∷ ts) h = on_reap-Inv s e k t ts h (exit_visit t) refl
  reap_next-Inv [] h = end-Inv (e == k) (λ q. ground arith) h
