-- ===== src/Thread/Run/Parked.antt =====
-- What the weights of ckpt.Thread.Run.Weights say about each thread of a list.
use ckpt.Prelude.{ℕ, suc, ◌≤◌, ◌≡◌, refl, false, List, [], ◌∷◌, All, arith}
use ckpt.Peer.Base.{suspended}
use ckpt.Thread.Base.{inside, Thread}
use ckpt.Thread.Run.Weights.{
  calm, suspending, gathered, IsFit, sum, present, due, pending, not_due, stray,
}

-- The thread has saved itself, and waits in `thread_barrier` for the end of the checkpoint `ρ`.
pub record Parked (ρ : ℕ) (t : Thread) : Type 0 where
  pub state : t.state ≡ suspended
  pub exiting : t.exiting ≡ false
  pub pc : t.pc ≡ inside ρ

module _ (ρ : ℕ) where
  renew-IsFit : (t : Thread) → IsFit calm ρ t → IsFit suspending (suc ρ) t
  renew-IsFit t f = ground arith

  pub renew_all : (ts : List Thread) → All (IsFit calm ρ) ts → All (IsFit suspending (suc ρ)) ts
  renew_all [] f = tt
  renew_all (t ∷ ts) f = (renew-IsFit t f.0, renew_all ts f.1)

  absent : (t : Thread) → IsFit suspending ρ t → present ρ t ≡ 0
  absent t f = ground arith

  pub all_absent : (ts : List Thread) → All (IsFit suspending ρ) ts → sum (present ρ) ts ≡ 0
  all_absent [] f = refl
  all_absent (t ∷ ts) f = omega (arith, absent t f.0, all_absent ts f.1)

  gather-IsFit :
      (t : Thread) → pending t ≡ 0 → stray t ≡ 0 → IsFit suspending ρ t → IsFit gathered ρ t
  gather-IsFit t p q f = ground arith

  pub gather_all :
      (ts : List Thread)
      → sum pending ts ≡ 0
      → sum stray ts ≡ 0
      → All (IsFit suspending ρ) ts
      → All (IsFit gathered ρ) ts
  gather_all [] p q f = tt
  gather_all (t ∷ ts) p q f = (
    gather-IsFit t (omega arith) (omega arith) f.0,
    gather_all ts (omega arith) (omega arith) f.1,
  )

  present-le-due : (t : Thread) → IsFit gathered ρ t → present ρ t ≤ due ρ t
  present-le-due t f = ground arith

  pub presents-le-dues :
      (ts : List Thread) → All (IsFit gathered ρ) ts → sum (present ρ) ts ≤ sum (due ρ) ts
  presents-le-dues [] f = omega arith
  presents-le-dues (t ∷ ts) f = omega (arith, present-le-due t f.0, presents-le-dues ts f.1)

  parked : (t : Thread) → IsFit gathered ρ t → not_due ρ t ≡ 0 → due ρ t ≤ present ρ t → Parked ρ t
  parked t f d e = record { state = ground arith; exiting = ground arith; pc = ground arith }

  pub all-Parked :
      (ts : List Thread)
      → All (IsFit gathered ρ) ts
      → sum (not_due ρ) ts ≡ 0
      → sum (due ρ) ts ≤ sum (present ρ) ts
      → All (Parked ρ) ts
  all-Parked [] f d e = tt
  all-Parked (t ∷ ts) f d e =
      let le = present-le-due t f.0 in
      let les = presents-le-dues ts f.1 in
      (parked t f.0 (omega arith) (omega arith), all-Parked ts f.1 (omega arith) (omega arith))

  part-IsFit : (t : Thread) → Parked ρ t → IsFit gathered ρ t → IsFit calm ρ t
  part-IsFit t p f = ground (arith, p.pc)

  pub part_all :
      (ts : List Thread) → All (Parked ρ) ts → All (IsFit gathered ρ) ts → All (IsFit calm ρ) ts
  part_all [] p f = tt
  part_all (t ∷ ts) p f = (part-IsFit t p.0 f.0, part_all ts p.1 f.1)
