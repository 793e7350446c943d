-- ===== src/Thread/Run/Scan.antt =====
-- The steps of the threads keep the invariant of ckpt.Thread.Run.Invariant.
use ckpt.Prelude.{ℕ, ◌+◌, ◌≡◌, refl, Bool, true, false, List, [], arith}
use ckpt.Thread.Base.{Thread}
use ckpt.Thread.Run.{
  XndState, Ckpt, idle, requested, again, scanning, exits, reaping, settled, arriving, writing,
  aborted, Turned, here, there, locks_list,
}
use ckpt.Thread.Run.Turns.{Kept, Settles, Turned-Kept}
use ckpt.Thread.Run.Invariant.{Counted, Full, Reaped, Tally, Holds}
use ckpt.Thread.Run.Weights.{xnd_at, sum, pending}

module _ {ρ n : ℕ} {ts us : List Thread} where
  settle-Counted : (sum pending ts ≡ 0 → Settles ρ ts us) → Counted ρ n ts → Counted ρ n us
  settle-Counted kept h =
      let (fewer, reached, _, caught, _) = kept h.reached in
      record {
        bounded = omega (arith, h.bounded);
        reached = reached;
        caught = λ e. caught (omega (arith, h.bounded)) (h.caught (omega arith));
      }

  settle-Full : (sum pending ts ≡ 0 → Settles ρ ts us) → Full ρ n ts → Full ρ n us
  settle-Full kept h =
      let (fewer, reached, strays, _, caught) = kept h.reached in
      record {
        bounded = omega (arith, h.bounded);
        reached = reached;
        clear = omega (arith, h.clear);
        caught = λ e. omega (arith, caught (omega (arith, h.bounded)), h.caught (omega arith));
      }

module _ {ρ n e k : ℕ} {ts us vs : List Thread} where
  settle-Reaped_seen :
      (sum pending ts ≡ 0 → Settles ρ ts us) → Reaped ρ n e k ts vs → Reaped ρ n e k us vs
  settle-Reaped_seen kept h =
      let (fewer, reached, strays, caught, same) = kept h.reached_seen in
      record {
        fewer = h.fewer;
        bounded = omega (arith, h.bounded);
        reached_seen = reached;
        reached_unseen = h.reached_unseen;
        caught_seen = λ q. caught (omega (arith, h.bounded)) (h.caught_seen (omega arith));
        caught_unseen = λ q. h.caught_unseen (omega arith);
        clear = λ q. omega (arith, h.clear q);
        all_due = λ q r. omega (arith, same (omega (arith, h.bounded)), h.all_due q (omega arith));
      }

  settle-Reaped_unseen :
      (sum pending ts ≡ 0 → Settles ρ ts us) → Reaped ρ n e k vs ts → Reaped ρ n e k vs us
  settle-Reaped_unseen kept h =
      let (fewer, reached, _, caught, _) = kept h.reached_unseen in
      record {
        fewer = h.fewer;
        bounded = omega (arith, h.bounded);
        reached_seen = h.reached_seen;
        reached_unseen = reached;
        caught_seen = λ q. h.caught_seen (omega arith);
        caught_unseen = λ q. caught (omega (arith, h.bounded)) (h.caught_unseen (omega arith));
        clear = h.clear;
        all_due = λ q r. h.all_due q (omega arith);
      }

module _ {ρ k : ℕ} {ts us : List Thread} (m a : ℕ) (vs : List Thread) where
  Tally-seen : (w : Ckpt) → Kept w ρ ts us k → Tally w ρ m a ts vs → Tally w ρ m (a + k) us vs
  Tally-seen idle kept h = tt
  Tally-seen requested kept h = tt
  Tally-seen again kept h = tt
  Tally-seen (scanning n re) kept h = λ e. settle-Counted (kept.settles refl) (h e)
  Tally-seen exits kept h = settle-Counted (kept.settles refl) h
  Tally-seen (reaping x y) kept h = settle-Reaped_seen (kept.settles refl) h
  Tally-seen settled kept h = settle-Full (kept.settles refl) h
  Tally-seen arriving kept h = settle-Full (kept.settles refl) h
  Tally-seen writing kept h = (settle-Full (kept.settles refl) h.0, omega (arith, h.1))
  Tally-seen aborted kept h = tt

  Tally-unseen :
      (w : Ckpt)
      → locks_list w ≡ true
      → Kept w ρ ts us k
      → Tally w ρ m a vs ts
      → Tally w ρ m (a + k) vs us
  Tally-unseen (scanning n re) l kept h = h
  Tally-unseen (reaping x y) l kept h = settle-Reaped_unseen (kept.settles refl) h
  Tally-unseen aborted l kept h = tt
  Tally-unseen _ l kept h = cc

-- Only in a scan is there a thread to move that the scan has not reached.
Turned-locks :
    {ρ k : ℕ} {x : XndState} {E : ℕ → Bool} {ts us : List Thread} (w : Ckpt)
    → Turned x ρ E ts us k
    → (locks_list w ≡ false → ts ≡ [])
    → locks_list w ≡ true
Turned-locks w (here m) h = ground arith
Turned-locks w (there m) h = ground arith

module _ {ρ m a k : ℕ} {E : ℕ → Bool} {ts us vs : List Thread} (w : Ckpt) where
  pub turn_seen-Holds :
      Turned (xnd_at w) ρ E ts us k → Holds w ρ m a ts vs → Holds w ρ m (a + k) us vs
  turn_seen-Holds m h =
      let kept = Turned-Kept w m h.fit_seen in
      record {
        fit_seen = kept.fit;
        fit_unseen = h.fit_unseen;
        counts = λ c. omega (arith, h.counts c, kept.presents c);
        whole = h.whole;
        tally = Tally-seen _ _ _ w kept h.tally;
      }

  pub turn_unseen-Holds :
      Turned (xnd_at w) ρ E ts us k → Holds w ρ m a vs ts → Holds w ρ m (a + k) vs us
  turn_unseen-Holds m h =
      let kept = Turned-Kept w m h.fit_unseen in
      let locked = Turned-locks w m h.whole in
      record {
        fit_seen = h.fit_seen;
        fit_unseen = kept.fit;
        counts = λ c. omega (arith, h.counts c, kept.presents c);
        whole = λ l. cc (locked);
        tally = Tally-unseen _ _ _ w locked kept h.tally;
      }
