-- ===== src/ProcList/Laws.antt =====
-- The searches of xnd/coordinator/proc_list.c return processes of the list, and writes through
-- what they return touch one process.
use ckpt.Prelude.{
  ℕ, zero, suc, ◌≡◌, refl, ap, subst, inl, inr, some, List, [], ◌∷◌, ◌==◌, true, Bool-cases, length,
  All, arith,
}
use ckpt.ProcList.{
  ProcState, running, recv_ckpt_request, ready_for_ckpt, ckpt_in_progress, ckpt_complete,
  restart_in_progress, exited, state_code, same_state, Proc, find_by_real_pid, find_by_virt_pid,
  modify_by_real_pid, remove_by_real_pid,
}

-- The constant of a value of the enumeration.
abbrev state_of : ℕ → ProcState
state_of zero = running
state_of (suc zero) = recv_ckpt_request
state_of (suc (suc zero)) = ready_for_ckpt
state_of (suc (suc (suc zero))) = ckpt_in_progress
state_of (suc (suc (suc (suc zero)))) = ckpt_complete
state_of (suc (suc (suc (suc (suc zero))))) = restart_in_progress
state_of (suc (suc (suc (suc (suc (suc n)))))) = exited

state_of-state_code : (s : ProcState) → state_of (state_code s) ≡ s
state_of-state_code running = refl
state_of-state_code recv_ckpt_request = refl
state_of-state_code ready_for_ckpt = refl
state_of-state_code ckpt_in_progress = refl
state_of-state_code ckpt_complete = refl
state_of-state_code restart_in_progress = refl
state_of-state_code exited = refl

pub same_state_eq : (s t : ProcState) → same_state s t ≡ true → s ≡ t
same_state_eq s t h =
    let e : state_code s ≡ state_code t = ground arith in
    cc (state_of-state_code s, state_of-state_code t, ap state_of e)

pub same_state_refl : (s : ProcState) → same_state s s ≡ true
same_state_refl s = ground arith

module _ (P : Proc → Type 0) where
  pub All-find_by_real_pid :
      (ps : List Proc) (real : ℕ) {p : Proc}
      → All P ps
      → find_by_real_pid ps real ≡ some p
      → P p × (p.real_pid ≡ real)
  unfolding find_by_real_pid
  All-find_by_real_pid [] real h e = cc
  All-find_by_real_pid (q ∷ ps) real {p} h e = elim (Bool-cases (q.real_pid == real)) [
    | inl hit ↦ let same : q ≡ p = ground arith in (subst P same h.0, ground arith)
    | inr miss ↦ All-find_by_real_pid ps real h.1 (rw miss at e)
  ]

  pub All-find_by_virt_pid :
      (ps : List Proc) (virt : ℕ) {p : Proc}
      → All P ps
      → find_by_virt_pid ps virt ≡ some p
      → P p × (p.virt_pid ≡ virt)
  unfolding find_by_virt_pid
  All-find_by_virt_pid [] virt h e = cc
  All-find_by_virt_pid (q ∷ ps) virt {p} h e = elim (Bool-cases (q.virt_pid == virt)) [
    | inl hit ↦ let same : q ≡ p = ground arith in (subst P same h.0, ground arith)
    | inr miss ↦ All-find_by_virt_pid ps virt h.1 (rw miss at e)
  ]

  pub All-modify_by_real_pid :
      (f : Proc → Proc) (ps : List Proc) (real : ℕ)
      → ((p : Proc) → P p → P (f p))
      → All P ps
      → All P (modify_by_real_pid f ps real)
  unfolding modify_by_real_pid
  All-modify_by_real_pid f [] real keep h = tt
  All-modify_by_real_pid f (q ∷ ps) real keep h = elim (Bool-cases (q.real_pid == real)) [
    | inl hit ↦ rw hit (keep q h.0, h.1)
    | inr miss ↦ rw miss (h.0, All-modify_by_real_pid f ps real keep h.1)
  ]

  pub All-remove_by_real_pid :
      (ps : List Proc) (real : ℕ) → All P ps → All P (remove_by_real_pid ps real)
  unfolding remove_by_real_pid
  All-remove_by_real_pid [] real h = tt
  All-remove_by_real_pid (q ∷ ps) real h = elim (Bool-cases (q.real_pid == real)) [
    | inl hit ↦ rw hit h.1
    | inr miss ↦ rw miss (h.0, All-remove_by_real_pid ps real h.1)
  ]

pub length-modify_by_real_pid :
    (f : Proc → Proc) (ps : List Proc) (real : ℕ)
    → length (modify_by_real_pid f ps real) ≡ length ps
unfolding modify_by_real_pid
length-modify_by_real_pid f [] real = refl
length-modify_by_real_pid f (q ∷ ps) real = ground (arith, length-modify_by_real_pid f ps real)

pub length-remove_by_real_pid :
    (ps : List Proc) (real : ℕ) (p : Proc)
    → find_by_real_pid ps real ≡ some p
    → length ps ≡ suc (length (remove_by_real_pid ps real))
unfolding remove_by_real_pid find_by_real_pid
length-remove_by_real_pid [] real p e = cc
length-remove_by_real_pid (q ∷ ps) real p e = ground (arith, length-remove_by_real_pid ps real p)
