-- ===== src/Peer/Base/Ends.antt =====
-- Total postconditions of the pid wrappers, and how a wrapper brackets what it does.
use ckpt.Prelude.{
  ℕ, ◌+◌, ◌%◌, ◌<◌, ◌≡◌, refl, Option, none, some, ◌==◌, arith, Bool-cases, inl, inr,
}
use ckpt.Peer.Base.{
  ThreadState, embryo, running, signaled, susp_in_prog, suspended, ckpt_thread, unsafe, ThreadInfo,
  Peer, Outcome, done, P, and_then, unsafe_enter, unsafe_exit, enter_self, exit_self,
}

-- The run returns, with a result and a state of which `Post` holds.
pub data Returns {A : Type 0} (Post : A → Peer → Type 0) : Outcome A → Type 0 where
  returns : {a : A} {p : Peer} → Post a p → Returns Post (done a p)

module _ {A B : Type 0} {Post : A → Peer → Type 0} {Post' : B → Peer → Type 0} where
  pub bind :
      {r : Outcome A} {k : A → P B}
      → Returns Post r
      → ((a : A) (p : Peer) → Post a p → Returns Post' (k a p))
      → Returns Post' (and_then r k)
  bind (returns h) next = next _ _ h

module _ {A : Type 0} {Post Post' : A → Peer → Type 0} where
  pub mono :
      {r : Outcome A}
      → Returns Post r
      → ((a : A) (p : Peer) → Post a p → Post' a p)
      → Returns Post' r
  mono (returns h) weaken = returns (weaken _ _ h)

-- A thread that a wrapper can be called on: outside of wrappers it runs, within them it is unsafe.
-- Its wrappers are not nested 2 ^ 32 - 2 deep.
abbrev pub IsSteadyThread : ThreadState → ℕ → Type 0
IsSteadyThread embryo depth = Unit {0}
IsSteadyThread ckpt_thread depth = Unit {0}
IsSteadyThread running depth = depth ≡ 0
IsSteadyThread unsafe depth = (0 < depth) × (depth < 4294967294)
IsSteadyThread _ depth = ⊥

abbrev pub IsSteady : Option ThreadInfo → Type 0
IsSteady none = Unit {0}
IsSteady (some t) = IsSteadyThread t.state t.wrapper_depth

-- A thread that has entered a wrapper.
abbrev pub entered_thread : ThreadInfo → ThreadState → ThreadInfo
entered_thread t running = record { state = unsafe; wrapper_depth = 1 }
entered_thread t unsafe = record {
  state = unsafe;
  wrapper_depth = (t.wrapper_depth + 1) % 4294967296;
}
entered_thread t s = t

abbrev pub entered : Option ThreadInfo → Option ThreadInfo
entered none = none
entered (some t) = some (entered_thread t t.state)

abbrev with_self : Peer → Option ThreadInfo → Peer
with_self p o = record p { self = o }

abbrev thread : ThreadState → ℕ → ThreadInfo
thread s depth = record { state = s; wrapper_depth = depth }

enter_thread :
    (s : ThreadState) (depth : ℕ) (p : Peer)
    → IsSteadyThread s depth
    → enter_self (some (thread s depth)) (with_self p (some (thread s depth)))
      ≡ done tt (with_self p (some (entered_thread (thread s depth) s)))
unfolding enter_self
enter_thread embryo depth p h = refl
enter_thread ckpt_thread depth p h = refl
enter_thread running depth p h = rw h refl
enter_thread unsafe depth p h = elim (Bool-cases (depth == 0)) [
  | inl first ↦ absurd (ground arith)
  | inr more ↦ rw more refl
]
enter_thread signaled depth p h = absurd h
enter_thread susp_in_prog depth p h = absurd h
enter_thread suspended depth p h = absurd h

exit_thread :
    (s : ThreadState) (depth : ℕ) (p : Peer)
    → IsSteadyThread s depth
    → exit_self
        (some (entered_thread (thread s depth) s))
        (with_self p (some (entered_thread (thread s depth) s)))
      ≡ done tt (with_self p (some (thread s depth)))
unfolding exit_self
exit_thread embryo depth p h = refl
exit_thread ckpt_thread depth p h = refl
exit_thread running depth p h = rw h refl
exit_thread unsafe depth p h =
    let back : ((depth + 1) % 4294967296 + 4294967295) % 4294967296 ≡ depth = omega arith in
    elim (Bool-cases (depth == 0)) [
      | inl first ↦ absurd (ground arith)
      | inr more ↦ rw (back, more) refl
    ]
exit_thread signaled depth p h = absurd h
exit_thread susp_in_prog depth p h = absurd h
exit_thread suspended depth p h = absurd h

enter_self_lem :
    (o : Option ThreadInfo) (p : Peer)
    → IsSteady o
    → enter_self o (with_self p o) ≡ done tt (with_self p (entered o))
unfolding enter_self
enter_self_lem none p h = refl
enter_self_lem (some t) p h = enter_thread t.state t.wrapper_depth p h

exit_self_lem :
    (o : Option ThreadInfo) (p : Peer)
    → IsSteady o
    → exit_self (entered o) (with_self p (entered o)) ≡ done tt (with_self p o)
unfolding exit_self
exit_self_lem none p h = refl
exit_self_lem (some t) p h = exit_thread t.state t.wrapper_depth p h

pub unsafe_enter_lem :
    (p : Peer) → IsSteady p.self → unsafe_enter p ≡ done tt (with_self p (entered p.self))
unfolding unsafe_enter
unsafe_enter_lem p h = enter_self_lem p.self p h

-- What was entered is left as it was before.
pub unsafe_exit_lem :
    (o : Option ThreadInfo) (p : Peer)
    → IsSteady o
    → p.self ≡ entered o
    → unsafe_exit p ≡ done tt (with_self p o)
unfolding unsafe_exit
unsafe_exit_lem o p h e = rw e (exit_self_lem o p h)
