-- ===== src/Peer/Proc/Laws.antt =====
-- The wrappers of the `proc_*` calls of xnd/pid/pid_wrappers.c: what they return, and that the
-- thread leaves them as it entered them.
use ckpt.Prelude.{
  ℕ, ◌≡◌, ◌≢◌, refl, ap, ◌∙◌, false, some, ◌==◌, if◌then◌else◌, Bool-cases, inl, inr, arith,
  minus_one,
}
use ckpt.Pid.Table.{virtual_to_real}
use ckpt.Peer.Base.{Peer, done, P, pure, and_then, unsafe_enter, unsafe_exit, set_errno}
use ckpt.Peer.Base.Ends.{
  Returns, returns, bind, IsSteady, entered, unsafe_enter_lem, unsafe_exit_lem,
}
use ckpt.Peer.Translate.{Link, virtual_to_real_pid}
use ckpt.Peer.Translate.Laws.{
  IsFree, Asked, after, virtual_to_real_pid_lem, virtual_to_real_pid_known,
}
use ckpt.Peer.Proc.{esrch, on_real_pid, with_real_pid}

-- A thread that a wrapper can be called on, with no lock held.
pub record IsReady (p : Peer) : Type 0 where
  pub steady : IsSteady p.self
  pub free : IsFree p

-- What a wrapper leaves: the thread and the table as they were, the locks free, perhaps a
-- connection and an error number.
abbrev pub left : Peer → (fd errno : ℕ) → Peer
left p fd errno = record (after p fd) { errno = errno }

abbrev pub Leaves : Peer → Peer → Type 0
Leaves p p' = (fd : ℕ) × (errno : ℕ) × (p' ≡ left p fd errno)

abbrev pub inside : Peer → Peer
inside p = record p { self = entered p.self }

pub enter_then :
    {B : Type 0} (k : Unit {0} → P B) (p : Peer)
    → IsReady p
    → and_then (unsafe_enter p) k ≡ k tt (inside p)
enter_then k p h = rw (unsafe_enter_lem p h.steady) refl

hooked_lem :
    {A : Type 0} (link : Link) (call : ℕ → A) (next : A → P A) (fail : A) (pid : ℕ) (p : Peer)
    → IsReady p
    → p.skip ≡ false
    → with_real_pid link call next fail pid p
      ≡ and_then (virtual_to_real_pid link pid (inside p)) (on_real_pid call next fail)
unfolding with_real_pid
hooked_lem {A} link call next fail pid p h hooked =
    let entered : P A =
      λ q. and_then (virtual_to_real_pid link pid q) (on_real_pid call next fail) in
    ap (λ b. if b then done (call pid) p else and_then (unsafe_enter p) (λ _. entered)) hooked
    ∙ enter_then (λ _. entered) p h

pub inside-IsFree : (p : Peer) → IsFree p → IsFree (inside p)
inside-IsFree p free = record { table_free = free.table_free; oob_free = free.oob_free }

pub leave_now :
    {A : Type 0} (a : A) (p : Peer)
    → IsReady p
    → and_then (unsafe_exit (inside p)) (λ _. pure a) ≡ done a p
leave_now a p h = rw (unsafe_exit_lem p.self (inside p) h.steady refl) refl

-- Where the pid is in the table, a wrapper with nothing to do after the call returns what the
-- kernel answers for the real pid, and changes nothing. The thread is ready for a wrapper, wrappers
-- are not skipped, and the real pid is not -1.
pub with_real_pid_known :
    {A : Type 0} (link : Link) (call : ℕ → A) (fail : A) (pid real : ℕ) (p : Peer)
    → IsReady p
    → p.skip ≡ false
    → virtual_to_real p.table pid ≡ some real
    → real ≢ minus_one
    → with_real_pid link call pure fail pid p ≡ done (call real) p
unfolding on_real_pid
with_real_pid_known link call fail pid real p h hooked known other =
    elim (Bool-cases (real == minus_one)) [
      | inl wrong ↦ absurd (other (ground arith))
      | inr right ↦
          hooked_lem link call pure fail pid p h hooked
          ∙ rw
              (
                virtual_to_real_pid_known link pid real (inside p) (inside-IsFree p h.free) known
                    other,
                right,
              )
              (leave_now (call real) p h)
    ]

-- A computation that leaves the thread inside the wrapper can be left.
pub leave_lem :
    {A : Type 0} (a : A) (p q : Peer)
    → IsReady p
    → Asked (inside p) q
    → Returns (λ _. Leaves p) (and_then (unsafe_exit q) (λ _. pure a))
leave_lem a p q h (fd, same) =
    rw (same, unsafe_exit_lem p.self (after (inside p) fd) h.steady refl)
      (returns (fd, p.errno, refl))

fail_lem :
    {A : Type 0} (a : A) (p q : Peer)
    → IsReady p
    → Asked (inside p) q
    → Returns
        (λ _. Leaves p)
        (and_then (unsafe_exit q) (λ _ r. and_then (set_errno esrch r) (λ _. pure a)))
fail_lem a p q h (fd, same) =
    rw (same, unsafe_exit_lem p.self (after (inside p) fd) h.steady refl)
      (returns (fd, esrch, refl))

pub Asked-trans : (p q r : Peer) → Asked p q → Asked q r → Asked p r
Asked-trans p q r (fd, same) (fd', same') = (fd', same' ∙ ap (λ x. after x fd') same)

-- What a translation leaves is free of locks.
pub Asked-IsFree : (p q : Peer) → Asked p q → IsFree q
Asked-IsFree p q (fd, same) = rw same (record { table_free = refl; oob_free = refl })

-- Whatever the pid, the answer of the kernel and of the coordinator, a wrapper returns, with the
-- thread and the table as they were and the locks free: it leaves at most another connection and
-- error number. The thread is ready for a wrapper, wrappers are not skipped, and what is done after
-- the call returns and leaves at most another connection.
pub with_real_pid_lem :
    {A : Type 0} (link : Link) (call : ℕ → A) (next : A → P A) (fail : A) (pid : ℕ) (p : Peer)
    → IsReady p
    → ((a : A) (q : Peer) → IsFree q → Returns (λ _. Asked q) (next a q))
    → p.skip ≡ false
    → Returns (λ _. Leaves p) (with_real_pid link call next fail pid p)
unfolding on_real_pid
with_real_pid_lem link call next fail pid p h quiet hooked =
    rw (hooked_lem link call next fail pid p h hooked) (
      bind (virtual_to_real_pid_lem link pid (inside p) (inside-IsFree p h.free))
        (λ real q asked. on_real_lem real q asked))
  where
    on_real_lem :
        (real : ℕ) (q : Peer)
        → Asked (inside p) q
        → Returns (λ _. Leaves p) (on_real_pid call next fail real q)
    on_real_lem real q asked = elim (Bool-cases (real == minus_one)) [
      | inl missing ↦ rw missing (fail_lem fail p q h asked)
      | inr there ↦ rw there (
          bind (quiet (call real) q (Asked-IsFree (inside p) q asked))
            (λ a r asked'. leave_lem a p r h (Asked-trans (inside p) q r asked asked')))
    ]
