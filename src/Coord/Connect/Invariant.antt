-- ===== src/Coord/Connect/Invariant.antt =====
-- What holds of the coordinator of xnd/coordinator/xnd_coord.c whenever it waits for a message.
use ckpt.Prelude.{
  ℕ, ◌+◌, ◌<◌, ◌≤◌, ◌≡◌, ◌≢◌, true, some, List, [], ◌∷◌, ◌==◌, length, All, All-map, Bool-cases,
  inl, inr, arith,
}
use ckpt.ProcList.{Proc, modify_by_real_pid}
use ckpt.ProcList.Laws.{All-modify_by_real_pid}
use ckpt.Pid.Table.{Entries, virtual_id_exists, virtual_to_real, update}
use ckpt.Pid.Table.Laws.{virtual_to_real-update, exists-update}
use ckpt.Coord.Base.{Coord, Run, returned, exited, aborted, unfinished}

-- Both ids of a process were handed out.
abbrev pub HasIdsBelow : ℕ → ℕ → Proc → Type 0
HasIdsBelow next_virt next_xnd p = (p.virt_pid < next_virt) × (p.xnd_pid < next_xnd)

abbrev pub HasOtherIds : Proc → Proc → Type 0
HasOtherIds p q = (q.virt_pid ≢ p.virt_pid) × (q.xnd_pid ≢ p.xnd_pid)

abbrev pub Distinct : List Proc → Type 0
Distinct [] = Unit {0}
Distinct (p ∷ ps) = All (HasOtherIds p) ps × Distinct ps

abbrev pub IsRegistered : Entries → Proc → Type 0
IsRegistered table p = virtual_to_real table p.virt_pid ≡ some p.real_pid

pub record IsValid (c : Coord) : Type 0 where
  pub sized : c.size ≡ length c.procs
  pub below : All (HasIdsBelow c.next_virt_pid c.next_xnd_pid) c.procs
  pub distinct : Distinct c.procs
  pub registered : All (IsRegistered c.table) c.procs
  pub keys : (k : ℕ) → virtual_id_exists c.table k ≡ true → k < c.next_virt_pid

-- Two more ids of each kind can be handed out with no overflow.
abbrev pub HasRoom : Coord → Type 0
HasRoom c = (c.next_virt_pid + 2 < 2147483648) × (c.next_xnd_pid + 2 < 4294967296)

-- A run that returns leaves a valid state, and so does one that the process does not survive.
abbrev pub EndsValid : {A : Type 0} → Run A → Type 0
EndsValid (returned a c) = IsValid c
EndsValid (exited s c) = Unit {0}
EndsValid aborted = Unit {0}
EndsValid unfinished = Unit {0}

pub HasIdsBelow-mono :
    (v v' x x' : ℕ) (ps : List Proc)
    → v ≤ v'
    → x ≤ x'
    → All (HasIdsBelow v x) ps
    → All (HasIdsBelow v' x') ps
HasIdsBelow-mono v v' x x' ps hv hx =
    All-map (HasIdsBelow v x) (HasIdsBelow v' x') ps (λ p h. omega arith)

-- Fresh ids differ from all that were handed out.
pub HasOtherIds-below :
    (p : Proc) (v x : ℕ) (ps : List Proc)
    → v ≤ p.virt_pid
    → x ≤ p.xnd_pid
    → All (HasIdsBelow v x) ps
    → All (HasOtherIds p) ps
HasOtherIds-below p v x ps hv hx = All-map (HasIdsBelow v x) (HasOtherIds p) ps (λ q h. omega arith)

-- An entry that agrees with the processes that have its id leaves them all registered.
pub IsRegistered-update :
    (table : Entries) (v r : ℕ) (ps : List Proc)
    → All (λ p. p.virt_pid ≡ v → p.real_pid ≡ r) ps
    → All (IsRegistered table) ps
    → All (IsRegistered (update table v r)) ps
IsRegistered-update table v r [] agree h = tt
IsRegistered-update table v r (p ∷ ps) agree h = (
  ground (arith, agree.0, virtual_to_real-update table v r p.virt_pid),
  IsRegistered-update table v r ps agree.1 h.1,
)

pub keys-update :
    (table : Entries) (v r n m : ℕ)
    → ((k : ℕ) → virtual_id_exists table k ≡ true → k < n)
    → v < m
    → n ≤ m
    → (k : ℕ) → virtual_id_exists (update table v r) k ≡ true
    → k < m
keys-update table v r n m old hv hn k e = ground (arith, old k, exists-update table v r k)

abbrev pub moved_to : ℕ → Proc → Proc
moved_to fd p = record p { fd = fd }

pub Distinct-moved :
    (fd : ℕ) (ps : List Proc) (real : ℕ)
    → Distinct ps
    → Distinct (modify_by_real_pid (moved_to fd) ps real)
unfolding modify_by_real_pid
Distinct-moved fd [] real d = tt
Distinct-moved fd (p ∷ ps) real d = elim (Bool-cases (p.real_pid == real)) [
  | inl hit ↦ rw hit d
  | inr miss ↦ rw miss (
    All-modify_by_real_pid (HasOtherIds p) (moved_to fd) ps real (λ q h. h) d.0,
    Distinct-moved fd ps real d.1,
  )
]
