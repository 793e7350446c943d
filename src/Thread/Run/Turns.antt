-- ===== src/Thread/Run/Turns.antt =====
-- What the step of one thread keeps, for the thread and for the list it stands in.
use ckpt.Prelude.{ℕ, ◌+◌, ◌≤◌, ◌≡◌, Bool, true, false, List, All, arith}
use ckpt.Thread.Base.{Thread}
use ckpt.Thread.Run.{
  Ckpt, Turn, Turned, here, there, enter, leave, create, created, start, exit, die, join, interrupt,
  save, pass, arrive, release, resume,
}
use ckpt.Thread.Run.Weights.{
  phase, is_calm, is_suspending, is_gathered, xnd_at, IsFit, sum, present, due, pending, at_large,
  not_due, stray, held,
}

-- A step between two lists in which no signal is on its way.
abbrev pub Settles : ℕ → List Thread → List Thread → Type 0
Settles ρ ts us =
    (sum (due ρ) us ≤ sum (due ρ) ts)
    × (sum pending us ≡ 0)
    × (sum stray us ≤ sum stray ts)
    × (sum (due ρ) us ≡ sum (due ρ) ts → sum (at_large ρ) ts ≡ 0 → sum (at_large ρ) us ≡ 0)
    × (sum (due ρ) us ≡ sum (due ρ) ts → sum (not_due ρ) us ≡ sum (not_due ρ) ts)

module _ (w : Ckpt) (ρ : ℕ) where
  abbrev Effect : Thread → Thread → ℕ → Type 0
  Effect t t' k =
      IsFit (phase w) ρ t'
      × (is_gathered (phase w) ≡ true → present ρ t ≡ 0)
      × (is_suspending (phase w) ≡ true → held t ≤ held t')
      × (is_calm (phase w) ≡ false
          → (present ρ t' ≡ present ρ t + k)
            × (pending t ≡ 0
                → (due ρ t' ≤ due ρ t)
                  × (pending t' ≡ 0)
                  × (stray t' ≤ stray t)
                  × (due ρ t' ≡ due ρ t → at_large ρ t ≡ 0 → at_large ρ t' ≡ 0)))

  pub record Kept (ts us : List Thread) (k : ℕ) : Type 0 where
    pub fit : All (IsFit (phase w) ρ) us
    pub presents : is_calm (phase w) ≡ false → sum (present ρ) us ≡ sum (present ρ) ts + k
    pub holds : is_suspending (phase w) ≡ true → sum held ts ≤ sum held us
    pub settles : is_calm (phase w) ≡ false → sum pending ts ≡ 0 → Settles ρ ts us

module _ {ρ : ℕ} {E : ℕ → Bool} (w : Ckpt) where
  Turn-Effect :
      {t t' : Thread} {k : ℕ} → Turn (xnd_at w) ρ E t t' k → IsFit (phase w) ρ t → Effect w ρ t t' k
  Turn-Effect (enter a b c d) f = ground arith
  Turn-Effect (leave a b c) f = ground arith
  Turn-Effect (create a b c d) f = ground arith
  Turn-Effect (created a b) f = ground arith
  Turn-Effect (start a) f = ground arith
  Turn-Effect (exit a b c) f = ground arith
  Turn-Effect (die a) f = ground arith
  Turn-Effect (join a b) f = ground arith
  Turn-Effect (interrupt a b c) f = ground arith
  Turn-Effect (save a) f = ground arith
  Turn-Effect (pass a b) f = ground arith
  Turn-Effect (arrive a) f = ground arith
  Turn-Effect (release a b) f = ground arith
  Turn-Effect (resume a) f = ground arith

  pub Turned-Kept :
      {ts us : List Thread} {k : ℕ}
      → Turned (xnd_at w) ρ E ts us k
      → All (IsFit (phase w) ρ) ts
      → Kept w ρ ts us k
  Turned-Kept (here {ts} m) f =
      let effect = Turn-Effect m f.0 in
      record {
        fit = (effect.0, f.1);
        presents = λ c. omega (arith, (effect.3 c).0);
        holds = λ c. omega (arith, effect.2 c);
        settles = λ c p. let kept = (effect.3 c).1 (omega arith) in ground (arith, kept);
      }
  Turned-Kept (there m) f =
      let kept = Turned-Kept m f.1 in
      record {
        fit = (f.0, kept.fit);
        presents = λ c. omega (arith, kept.presents c);
        holds = λ c. omega (arith, kept.holds c);
        settles = λ c p. let tail = kept.settles c (omega arith) in ground (arith, tail);
      }

  pub Turned-moves :
      {ts us : List Thread} {k : ℕ}
      → Turned (xnd_at w) ρ E ts us k
      → is_gathered (phase w) ≡ true
      → All (IsFit (phase w) ρ) ts
      → All (λ t. present ρ t ≡ 1) ts
      → ⊥
  Turned-moves (here m) g f p = absurd (omega (arith, (Turn-Effect m f.0).1 g, p.0))
  Turned-moves (there m) g f p = Turned-moves m g f.1 p.1
