-- ===== src/Coord/Message/Laws.antt =====
-- The coordinator's state and answers in coord_handle_msg of xnd/coordinator/xnd_coord.c.
use ckpt.Prelude.{
  ℕ, ◌≡◌, ◌≢◌, refl, subst, sym, ◌∙◌, true, false, Option, some, none, List, [], ◌∷◌, ◌==◌, All,
  All-map, Bool-cases, inl, inr, arith, minus_one,
}
use ckpt.ProcList.{Proc, find_by_real_pid, find_by_virt_pid, remove_by_real_pid}
use ckpt.ProcList.Laws.{
  All-find_by_real_pid, All-find_by_virt_pid, All-remove_by_real_pid, length-remove_by_real_pid,
}
use ckpt.Pid.Table.{Entries, erase, virtual_to_real, virtual_id_exists, pid_table_virtual_to_real}
use ckpt.Pid.Table.Laws.{virtual_to_real-erase, exists-erase}
use ckpt.Coord.Base.{
  MsgHdr, exit_msg, virt_to_real, real_to_virt, coord_ack, success, Msg, zeroed, Coord, returned,
  World, coord_send_msg, coord_exit, emit, sent, proc_exit_callback,
}
use ckpt.Coord.Base.Ends.{Ends, mono, returns, exits, aborts}
use ckpt.Coord.Connect.Invariant.{HasIdsBelow, HasOtherIds, Distinct, IsRegistered, IsValid}
use ckpt.Coord.Connect.Join.{emit-IsValid}
use ckpt.Coord.Message.{
  remove_found, answer, coord_send_virt_to_real, coord_send_real_to_virt, forget, handle_hdr,
  coord_handle_msg,
}

removed_apart :
    (ps : List Proc) (real : ℕ) (p : Proc)
    → Distinct ps
    → find_by_real_pid ps real ≡ some p
    → All (λ q. q.virt_pid ≢ p.virt_pid) (remove_by_real_pid ps real)
unfolding find_by_real_pid remove_by_real_pid
removed_apart [] real p d e = tt
removed_apart (q ∷ ps) real p d e = elim (Bool-cases (q.real_pid == real)) [
  | inl hit ↦
      let same : q ≡ p = ground arith in
      rw hit (
        subst (λ x. All (λ r. r.virt_pid ≢ x.virt_pid) ps) same
          (All-map (HasOtherIds q) (λ r. r.virt_pid ≢ q.virt_pid) ps (λ r h. h.0) d.0))
  | inr miss ↦
      let found : find_by_real_pid ps real ≡ some p = rw miss at e in
      let (apart, _) = All-find_by_real_pid (HasOtherIds q) ps real d.0 found in
      rw miss ((λ same. apart.0 (sym same)), removed_apart ps real p d.1 found)
]

Distinct-remove : (ps : List Proc) (real : ℕ) → Distinct ps → Distinct (remove_by_real_pid ps real)
unfolding remove_by_real_pid
Distinct-remove [] real d = tt
Distinct-remove (q ∷ ps) real d = elim (Bool-cases (q.real_pid == real)) [
  | inl hit ↦ rw hit d.1
  | inr miss ↦
      rw miss (All-remove_by_real_pid (HasOtherIds q) ps real d.0, Distinct-remove ps real d.1)
]

IsRegistered-erase :
    (table : Entries) (v : ℕ) (ps : List Proc)
    → All (λ q. q.virt_pid ≢ v) ps
    → All (IsRegistered table) ps
    → All (IsRegistered (erase table v)) ps
IsRegistered-erase table v [] apart h = tt
IsRegistered-erase table v (p ∷ ps) apart h = (
  ground (arith, apart.0, h.0, virtual_to_real-erase table v p.virt_pid),
  IsRegistered-erase table v ps apart.1 h.1,
)

-- A process that exits leaves the others registered.
remove_found-IsValid :
    (c : Coord) (real : ℕ) (p : Proc)
    → IsValid c
    → find_by_real_pid c.procs real ≡ some p
    → IsValid (remove_found p c)
unfolding remove_found proc_exit_callback
remove_found-IsValid c real p v found =
    let (_, same) = All-find_by_real_pid (λ q. Unit {0}) c.procs real (units c.procs) found in
    let here : find_by_real_pid c.procs p.real_pid ≡ some p =
      subst (λ r. find_by_real_pid c.procs r ≡ some p) (sym same) found in
    record {
      sized = omega (arith, v.sized, length-remove_by_real_pid c.procs p.real_pid p here);
      below =
          All-remove_by_real_pid (HasIdsBelow c.next_virt_pid c.next_xnd_pid) c.procs p.real_pid
            v.below;
      distinct = Distinct-remove c.procs p.real_pid v.distinct;
      registered =
          IsRegistered-erase c.table p.virt_pid _
            (removed_apart c.procs p.real_pid p v.distinct here)
            (All-remove_by_real_pid (IsRegistered c.table) c.procs p.real_pid v.registered);
      keys = λ k e. ground (arith, v.keys k, exists-erase c.table p.virt_pid k);
    }
  where
    units : (ps : List Proc) → All (λ q. Unit {0}) ps
    units [] = tt
    units (q ∷ ps) = (tt, units ps)

-- What becomes of the state with the process that exits: it is not in the list any more, nor is its
-- virtual pid in the table, and every other entry of the table is kept.
abbrev pub Removed : Option Proc → Coord → Coord → Type 0
Removed none c c' = c' ≡ c
Removed (some p) c c' =
    (c'.procs ≡ remove_by_real_pid c.procs p.real_pid)
    × (virtual_id_exists c'.table p.virt_pid ≡ false)
    × ((k : ℕ) → k ≢ p.virt_pid → virtual_to_real c'.table k ≡ virtual_to_real c.table k)

-- A query changes neither the list nor the table.
abbrev pub Handled : MsgHdr → Msg → Coord → Coord → Type 0
Handled exit_msg msg c c' = Removed (find_by_real_pid c.procs msg.real_pid) c c'
Handled _ msg c c' = (c'.procs ≡ c.procs) × (c'.table ≡ c.table)

remove_found-Removed : (c : Coord) (p : Proc) → Removed (some p) c (remove_found p c)
unfolding remove_found proc_exit_callback
remove_found-Removed c p = (
  refl,
  exists-erase c.table p.virt_pid p.virt_pid ∙ ground arith,
  λ k ne. virtual_to_real-erase c.table p.virt_pid k ∙ ground arith,
)

answer_lem :
    (w : World) (fd : ℕ) (resp : Msg) (c : Coord)
    → IsValid c
    → Ends (λ _ c'. IsValid c' × ((c'.procs ≡ c.procs) × (c'.table ≡ c.table))) (answer w fd resp c)
unfolding answer coord_send_msg
answer_lem w fd resp c v = elim (Bool-cases (w.writable fd)) [
  | inl up ↦ rw up (returns (emit-IsValid _ _ v, (refl, refl)))
  | inr down ↦ rw down aborts
]

pub answer-IsValid :
    (w : World) (fd : ℕ) (resp : Msg) (c : Coord)
    → IsValid c
    → Ends (λ _. IsValid) (answer w fd resp c)
answer-IsValid w fd resp c v = mono (answer_lem w fd resp c v) (λ _ c' h. h.0)

forget_lem :
    (c : Coord) (real : ℕ) (o : Option Proc)
    → IsValid c
    → find_by_real_pid c.procs real ≡ o
    → Ends (λ _ c'. IsValid c' × Removed o c c') (forget o c)
unfolding forget
forget_lem c real none v found = returns (v, refl)
forget_lem c real (some p) v found =
    returns (remove_found-IsValid c real p v found, remove_found-Removed c p)

handle_hdr_lem :
    (w : World) (fd : ℕ) (msg : Msg) (hdr : MsgHdr) (c : Coord)
    → IsValid c
    → Ends (λ _ c'. IsValid c' × Handled hdr msg c c') (handle_hdr w fd msg hdr c)
unfolding handle_hdr
handle_hdr_lem w fd msg exit_msg c v = forget_lem c msg.real_pid _ v refl
handle_hdr_lem w fd msg virt_to_real c v = unfold coord_send_virt_to_real in answer_lem w fd _ c v
handle_hdr_lem w fd msg real_to_virt c v = unfold coord_send_real_to_virt in answer_lem w fd _ c v
handle_hdr_lem w fd msg _ c v = unfold coord_exit in exits

-- Whatever message a process sends, its handling leaves a valid state where it returns. If the
-- process exits and is listed, the first of its real pid is taken out of the list, its virtual pid is
-- not in the table any more, and every other entry of the table is kept; if it is not listed, the
-- state is as before. A query leaves the list and the table as they are.
pub handle_msg-IsValid :
    (w : World) (fd : ℕ) (msg : Msg) (c : Coord)
    → IsValid c
    → Ends (λ _ c'. IsValid c' × Handled msg.hdr msg c c') (coord_handle_msg w fd msg c)
unfolding coord_handle_msg
handle_msg-IsValid w fd msg c v = handle_hdr_lem w fd msg msg.hdr c v

abbrev pub found_real : ℕ → Msg
found_real real = record (zeroed coord_ack success) { real_pid = real }

answers_registered :
    (w : World) (fd : ℕ) (msg : Msg) (c : Coord) (p : Proc)
    → IsRegistered c.table p
    → w.writable fd ≡ true
    → msg.virt_pid ≡ p.virt_pid
    → p.real_pid ≢ minus_one
    → coord_send_virt_to_real w fd msg c ≡ returned tt (emit (sent fd (found_real p.real_pid)) c)
unfolding coord_send_virt_to_real answer coord_send_msg pid_table_virtual_to_real
answers_registered w fd msg c p known up asked real =
    rw (asked, known)
      (elim (Bool-cases (p.real_pid == minus_one)) [
        | inl wrong ↦ absurd (real (ground arith))
        | inr right ↦ rw (right, up) refl
      ])

-- In a valid state, a process that asks for the real pid of a registered process, by its virtual
-- pid, is sent the real pid of that process, and nothing but the log changes. The descriptor is
-- writable, and the real pid is not -1.
pub virt_to_real_answer :
    (w : World) (fd : ℕ) (msg : Msg) (c : Coord) (p : Proc)
    → IsValid c
    → msg.hdr ≡ virt_to_real
    → find_by_virt_pid c.procs msg.virt_pid ≡ some p
    → w.writable fd ≡ true
    → p.real_pid ≢ minus_one
    → coord_handle_msg w fd msg c ≡ returned tt (emit (sent fd (found_real p.real_pid)) c)
unfolding coord_handle_msg handle_hdr
virt_to_real_answer w fd msg c p v query found up real =
    let (known, same) =
      All-find_by_virt_pid (IsRegistered c.table) c.procs msg.virt_pid v.registered found in
    rw query (answers_registered w fd msg c p known up (sym same) real)
