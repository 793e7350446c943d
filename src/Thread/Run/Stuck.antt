-- ===== src/Thread/Run/Stuck.antt =====
-- A thread that `thread_sighandler` has got while it was exiting, in the runs of ckpt.Thread.Run.
use ckpt.Prelude.{
  ℕ, ◌≤◌, ◌<◌, ◌≡◌, ◌≢◌, ◌⊎◌, inl, inr, refl, subst, Bool, true, false, some, List, [], ◌∷◌,
  if◌then◌else◌, ◌==◌, arith,
}
use ckpt.Thread.Base.{Thread, thread_init}
use ckpt.Thread.Suspend.{Visit, passes, removes, counts, rescans, signals, asserts, exit_visit}
use ckpt.Thread.Run.{
  Ckpt, exits, reaping, settled, aborted, System, Step, works, turn_seen, turn_unseen, add, Reach,
  on_reap, locks_list, reap_next, ckpt_work, ckpt_step,
}
use ckpt.Thread.Run.Weights.{suspending, IsFit, sum, held}
use ckpt.Thread.Run.Invariant.{Inv}
use ckpt.Thread.Run.Turns.{Kept, Turned-Kept}
use ckpt.Thread.Run.Visits.{sum-snoc, exit-ne-counts, exit-ne-signals}
use ckpt.Thread.Run.At.{At, Inv-at}
use ckpt.Thread.Run.Safety.{Reach-Inv, Step-Inv}

pub data Runs (s : System) : System → Type 0 where
  now : Runs s s
  onward : {t u : System} → Runs s t → Step t u → Runs s u

-- The checkpoint thread is in `wait_for_exiting_threads`, or has aborted there.
abbrev pub waits_for_exits : Ckpt → Bool
waits_for_exits exits = true
waits_for_exits (reaping _ _) = true
waits_for_exits aborted = true
waits_for_exits _ = false

-- A held thread is before the scan, or the scan has found it alive.
abbrev Blocked : Ckpt → List Thread → List Thread → Type 0
Blocked exits ts us = 1 ≤ sum held ts
Blocked (reaping e k) ts us = (1 ≤ sum held us) ⊎ ((1 ≤ sum held ts) × (k < e))
Blocked aborted ts us = Unit
Blocked _ ts us = ⊥

abbrev IsBlocked : System → Type 0
IsBlocked s = Blocked s.work s.seen s.unseen

Blocked-waits : (w : Ckpt) (ts us : List Thread) → Blocked w ts us → waits_for_exits w ≡ true
Blocked-waits exits ts us h = refl
Blocked-waits (reaping e k) ts us h = refl
Blocked-waits aborted ts us h = refl
Blocked-waits _ ts us h = absurd h

held_found : (ρ : ℕ) (t : Thread) → IsFit suspending ρ t → exit_visit t ≢ rescans → held t ≡ 0
unfolding exit_visit
held_found ρ t f n = ground arith

module _ (s : System) (ρ e k : ℕ) (t : Thread) (ts : List Thread) (f : IsFit suspending ρ t)
    (h : Blocked (reaping e k) s.seen (t ∷ ts)) (at : s.work ≡ reaping e k) (le : k ≤ e) where
  on_reap-Blocked : (v : Visit) → exit_visit t ≡ v → IsBlocked (on_reap v t ts e k s)
  on_reap-Blocked removes q = elim h [
    | inl x ↦ inl (omega (arith, held_found ρ t f (λ r. cc)))
    | inr (x, y) ↦ inr (x, omega arith)
  ]
  on_reap-Blocked rescans q = let more = sum-snoc held s.seen t in ground (arith, more)
  on_reap-Blocked passes q = rw at (
      let more = sum-snoc held s.seen t in
      elim h [
        | inl x ↦ inl (omega (arith, held_found ρ t f (λ r. cc)))
        | inr (x, y) ↦ inr (omega (arith, more), y)
      ])
  on_reap-Blocked counts q = absurd (exit-ne-counts t q)
  on_reap-Blocked signals q = absurd (exit-ne-signals t q)
  on_reap-Blocked asserts q = tt

module _ (s : System) (e k : ℕ) where
  end-Blocked :
      (b : Bool)
      → (b ≡ true → e ≡ k)
      → Blocked (reaping e k) s.seen []
      → IsBlocked (if b then record s { work = settled } else record s { work = exits })
  end-Blocked true q h = elim h [
    | inl x ↦ absurd (omega arith)
    | inr (x, y) ↦ absurd (omega (arith, q refl))
  ]
  end-Blocked false q h = elim h [ inl x ↦ absurd (omega arith) | inr (x, y) ↦ x ]

  reap_next-Blocked :
      (ts : List Thread)
      → At (reaping e k) s ts
      → Blocked (reaping e k) s.seen ts
      → IsBlocked (reap_next e k ts s)
  reap_next-Blocked [] at h = end-Blocked (e == k) (λ q. ground arith) h
  reap_next-Blocked (t ∷ ts) at h =
      on_reap-Blocked s s.round e k t ts at.holds.fit_unseen.0 h at.at at.holds.tally.fewer
        (exit_visit t) refl

first-Blocked :
    (s : System)
    → Blocked exits s.seen s.unseen
    → IsBlocked (record s { seen = []; unseen = s.seen; work = reaping 0 0 })
first-Blocked s h = inl h

-- The steps of the checkpoint thread.
work-Blocked :
    (w : Ckpt) (s s' : System)
    → s.work ≡ w
    → Inv s
    → Blocked w s.seen s.unseen
    → ckpt_work w s ≡ some s'
    → IsBlocked s'
work-Blocked exits s s' e inv h q =
    subst IsBlocked {x = record s { seen = []; unseen = s.seen; work = reaping 0 0 }} {y = s'}
      (ground arith) (first-Blocked s h)
work-Blocked (reaping x y) s s' e inv h q =
    subst IsBlocked {x = reap_next x y s.unseen s} {y = s'} (ground arith)
      (reap_next-Blocked s x y s.unseen (Inv-at s e refl inv) h)
work-Blocked aborted s s' e inv h q = cc
work-Blocked _ s s' e inv h q = absurd h

turn_seen-Blocked :
    (w : Ckpt) {ρ k : ℕ} {ts us : List Thread} (vs : List Thread)
    → Kept w ρ ts us k
    → Blocked w ts vs
    → Blocked w us vs
turn_seen-Blocked exits vs kept h = omega (arith, kept.holds refl)
turn_seen-Blocked (reaping e k) vs kept h = elim h [
  | inl x ↦ inl x
  | inr (x, y) ↦ inr (omega (arith, kept.holds refl), y)
]
turn_seen-Blocked aborted vs kept h = tt
turn_seen-Blocked _ vs kept h = absurd h

turn_unseen-Blocked :
    (w : Ckpt) {ρ k : ℕ} {ts us : List Thread} (vs : List Thread)
    → Kept w ρ ts us k
    → Blocked w vs ts
    → Blocked w vs us
turn_unseen-Blocked exits vs kept h = h
turn_unseen-Blocked (reaping e k) vs kept h = elim h [
  | inl x ↦ inl (omega (arith, kept.holds refl))
  | inr x ↦ inr x
]
turn_unseen-Blocked aborted vs kept h = tt
turn_unseen-Blocked _ vs kept h = absurd h

add-Blocked :
    (w : Ckpt) (c : ℕ) (ts us : List Thread)
    → locks_list w ≡ false
    → Blocked w ts us
    → Blocked w (thread_init c ∷ ts) us
add-Blocked exits c ts us l h = omega (arith, h)
add-Blocked aborted c ts us l h = tt
add-Blocked (reaping e k) c ts us l h = cc
add-Blocked _ c ts us l h = absurd h

Step-Blocked : {s s' : System} → Step s s' → Inv s → IsBlocked s → IsBlocked s'
unfolding ckpt_step
Step-Blocked {s} (works e) inv h = work-Blocked s.work s _ refl inv h e
Step-Blocked {s} (turn_seen m) inv h =
    turn_seen-Blocked s.work s.unseen (Turned-Kept s.work (rw inv.agrees at m) inv.holds.fit_seen) h
Step-Blocked {s} (turn_unseen m) inv h =
    turn_unseen-Blocked s.work s.seen (Turned-Kept s.work (rw inv.agrees at m) inv.holds.fit_unseen)
      h
Step-Blocked {s} (add {c} l made) inv h = add-Blocked s.work c s.seen s.unseen l h

Runs-Blocked : {s t : System} → Runs s t → Inv s → IsBlocked s → Inv t × IsBlocked t
Runs-Blocked now inv h = (inv, h)
Runs-Blocked (onward r m) inv h =
    let (before, blocked) = Runs-Blocked r inv h in
    (Step-Inv m before, Step-Blocked m before blocked)

-- In a reachable system whose checkpoint thread starts a scan of `wait_for_exiting_threads` while a
-- listed thread is exiting and stands in `thread_sighandler` at or before the wait of
-- `thread_barrier`, no run ever brings the checkpoint thread out of `wait_for_exiting_threads`,
-- unless an assertion fails.
pub exits_stuck :
    {main : ℕ} {s t : System}
    → Reach main s
    → s.work ≡ exits
    → 1 ≤ sum held s.seen
    → Runs s t
    → waits_for_exits t.work ≡ true
exits_stuck {s} {t} r e h m =
    let (_, blocked) = Runs-Blocked m (Reach-Inv r) (rw e h) in
    Blocked-waits t.work t.seen t.unseen blocked
