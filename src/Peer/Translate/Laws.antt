-- ===== src/Peer/Translate/Laws.antt =====
-- What a translation of a pid of xnd/pid/pid_wrappers.c returns, and that it leaves the locks free.
use ckpt.Prelude.{
  ℕ, ◌≡◌, ◌≢◌, refl, ap, sym, true, false, some, ◌==◌, leb, Bool-cases, inl, inr, arith, minus_one,
}
use ckpt.Pid.Table.{
  Entries, or_minus_one, virtual_to_real, real_to_virtual, pid_table_virtual_to_real,
  pid_table_real_to_virtual,
}
use ckpt.Coord.Base.{Msg}
use ckpt.Peer.Base.{
  Peer, done, P, oob_lock, oob_unlock, pid_table_acquire, pid_table_release, change_table,
}
use ckpt.Peer.Base.Ends.{Returns, returns, bind}
use ckpt.Peer.Translate.{
  Link, translate, open_oob, request, virt_to_real_pid_from_coord, real_to_virt_pid_from_coord,
  virtual_to_real_pid, real_to_virtual_pid,
}

-- No lock is held.
pub record IsFree (p : Peer) : Type 0 where
  pub table_free : p.table_locked ≡ false
  pub oob_free : p.oob_locked ≡ false

-- The state after a translation: the connection to the coordinator may have been made, and the
-- locks are free.
abbrev pub after : Peer → ℕ → Peer
after p fd = record p { oob_fd = fd; oob_locked = false; table_locked = false }

-- What a translation leaves.
abbrev pub Asked : Peer → Peer → Type 0
Asked p p' = (fd : ℕ) × (p' ≡ after p fd)

open_oob_lem :
    (link : Link) (msg : Msg) (p : Peer)
    → Returns (λ _ p'. (fd : ℕ) × (p' ≡ record p { oob_fd = fd })) (open_oob link msg p)
unfolding open_oob
open_oob_lem link msg p = elim (Bool-cases (p.oob_fd == minus_one)) [
  | inl shut ↦ elim (Bool-cases (leb 2147483648 link.connect_to_coord)) [
    | inl wrong ↦ simp (shut, wrong) (returns (link.connect_to_coord, refl))
    | inr made ↦ simp (shut, made) (returns (link.connect_to_coord, refl))
  ]
  | inr there ↦ simp (there) (returns (p.oob_fd, refl))
]

-- What an exchange with the coordinator leaves: perhaps a connection, and its lock free.
abbrev answered_with : Peer → ℕ → Peer
answered_with p fd = record p { oob_fd = fd; oob_locked = false }

abbrev Answered : Peer → Peer → Type 0
Answered p p' = (fd : ℕ) × (p' ≡ answered_with p fd)

abbrev unlocked_oob : Peer → Peer
unlocked_oob p = record p { oob_locked = false }

abbrev unlocked_table : Peer → Peer
unlocked_table p = record p { table_locked = false }

request_lem :
    (link : Link) (field : Msg → ℕ) (msg : Msg) (p : Peer)
    → p.oob_locked ≡ false
    → Returns (λ _. Answered p) (request link field msg p)
unfolding request oob_lock oob_unlock
request_lem link field msg p free = simp (free) (
    bind (open_oob_lem link msg (record p { oob_locked = true }))
      (λ opened p' (fd, same). returns (fd, ap unlocked_oob same)))

module _ (known : Entries → ℕ) (ask : P ℕ) (p : Peer) (free : IsFree p) where
  -- Where the table has the answer, nothing changes.
  translate-known :
      (id : ℕ) → known p.table ≡ id → id ≢ minus_one → translate known ask p ≡ done id p
  unfolding translate pid_table_acquire pid_table_release
  translate-known id e other = elim (Bool-cases (id == minus_one)) [
    | inl wrong ↦ absurd (other (ground arith))
    | inr right ↦
        simp (free.table_free, e, right)
          (ap (λ b. done id (record p { table_locked = b })) (sym free.table_free))
  ]

  -- Where it has none, the coordinator's answer is the result.
  pub translate_asked :
      (id : ℕ)
      → known p.table ≡ minus_one
      → ask (record p { table_locked = true }) ≡ done id (record p { table_locked = true })
      → translate known ask p ≡ done id p
  unfolding translate pid_table_acquire pid_table_release
  translate_asked id e answer = elim (Bool-cases (known p.table == minus_one)) [
    | inl missing ↦
        simp (free.table_free, missing, answer)
          (ap (λ b. done id (record p { table_locked = b })) (sym free.table_free))
    | inr there ↦ absurd (ground arith)
  ]

  translate_lem :
      ((q : Peer) → q.oob_locked ≡ false → Returns (λ _. Answered q) (ask q))
      → Returns (λ _. Asked p) (translate known ask p)
  unfolding translate pid_table_acquire pid_table_release
  translate_lem asks = elim (Bool-cases (known p.table == minus_one)) [
    | inl missing ↦
        simp (free.table_free, missing)
          (bind (asks (record p { table_locked = true }) free.oob_free)
            (λ id p' (fd, same). returns (fd, ap unlocked_table same)))
    | inr there ↦
        simp (free.table_free, there)
          (returns
            (p.oob_fd, ap (λ b. record p { oob_locked = b; table_locked = false }) free.oob_free))
  ]

pub virtual_to_real_pid_lem :
    (link : Link) (virt : ℕ) (p : Peer)
    → IsFree p
    → Returns (λ _. Asked p) (virtual_to_real_pid link virt p)
unfolding virtual_to_real_pid virt_to_real_pid_from_coord
virtual_to_real_pid_lem link virt p free = translate_lem _ _ p free (λ q. request_lem link _ _ q)

pub real_to_virtual_pid_lem :
    (link : Link) (real : ℕ) (p : Peer)
    → IsFree p
    → Returns (λ _. Asked p) (real_to_virtual_pid link real p)
unfolding real_to_virtual_pid real_to_virt_pid_from_coord
real_to_virtual_pid_lem link real p free = translate_lem _ _ p free (λ q. request_lem link _ _ q)

pub virtual_to_real_pid_known :
    (link : Link) (virt real : ℕ) (p : Peer)
    → IsFree p
    → virtual_to_real p.table virt ≡ some real
    → real ≢ minus_one
    → virtual_to_real_pid link virt p ≡ done real p
unfolding virtual_to_real_pid pid_table_virtual_to_real
virtual_to_real_pid_known link virt real p free e =
    translate-known (λ table. pid_table_virtual_to_real table virt)
      (virt_to_real_pid_from_coord link virt) p free real (ap or_minus_one e)

pub real_to_virtual_pid_known :
    (link : Link) (real virt : ℕ) (p : Peer)
    → IsFree p
    → real_to_virtual p.table real ≡ some virt
    → virt ≢ minus_one
    → real_to_virtual_pid link real p ≡ done virt p
unfolding real_to_virtual_pid pid_table_real_to_virtual
real_to_virtual_pid_known link real virt p free e =
    translate-known (λ table. pid_table_real_to_virtual table real)
      (real_to_virt_pid_from_coord link real) p free virt (ap or_minus_one e)

pub change_table_lem :
    (f : Entries → Entries) (p : Peer)
    → IsFree p
    → change_table f p ≡ done tt (record p { table = f p.table })
unfolding change_table pid_table_acquire pid_table_release
change_table_lem f p free = simp (free.table_free) refl
