-- ===== src/Coord/Connect/Join.antt =====
-- What the ways to join the coordinator of xnd/coordinator/xnd_coord.c share: handing out ids, the
-- handshake, and the registration of a process that fits.
use ckpt.Prelude.{
  ℕ, ◌+◌, ◌<◌, ◌≤◌, ◌≡◌, ap, true, false, some, List, ◌∷◌, All, All-map, Bool-cases, inl, inr,
  arith, next32,
}
use ckpt.ProcList.{Proc, ProcState}
use ckpt.Pid.Table.{Entries, virtual_id_exists, virtual_to_real, update}
use ckpt.Pid.Table.Laws.{virtual_to_real-update}
use ckpt.Coord.Base.{Msg, Event, sent, Coord, returned, World, and_then, proc_list_add, emit}
use ckpt.Coord.Base.Ends.{Ends, returns, exits}
use ckpt.Coord.Connect.{coord_next_virt_pid, handshake_msg, coord_send_handshake, enlist}
use ckpt.Coord.Connect.Invariant.{
  HasOtherIds, IsRegistered, IsValid, HasIdsBelow-mono, IsRegistered-update, keys-update,
}

-- A state with larger counters and another log is as valid.
abbrev pub advanced : (nv nx : ℕ) → Coord → Coord
advanced nv nx c = record c { next_virt_pid = nv; next_xnd_pid = nx }

-- No id that is still to be handed out is in the table.
pub fresh_key :
    (c : Coord) (k : ℕ) → IsValid c → c.next_virt_pid ≤ k → virtual_id_exists c.table k ≡ false
fresh_key c k v h = elim (Bool-cases (virtual_id_exists c.table k)) [
  | inl old ↦ absurd (omega (arith, v.keys k old))
  | inr new ↦ new
]

pub coord_next_virt_pid_lem :
    (c : Coord)
    → virtual_id_exists c.table c.next_virt_pid ≡ false
    → c.next_virt_pid < 2147483647
    → coord_next_virt_pid c
      ≡ returned c.next_virt_pid (record c { next_virt_pid = c.next_virt_pid + 1 })
unfolding coord_next_virt_pid
coord_next_virt_pid_lem c new h =
    let e : next32 c.next_virt_pid ≡ c.next_virt_pid + 1 = omega arith in rw (new, e)

pub coord_send_handshake_lem :
    (w : World) (garbage : Msg) (p : Proc) (c : Coord)
    → w.writable p.fd ≡ true
    → coord_send_handshake w garbage p c
      ≡ returned tt (emit (sent p.fd (handshake_msg garbage c p)) c)
unfolding coord_send_handshake
coord_send_handshake_lem w garbage p c h = rw h

pub advanced-IsValid :
    (nv nx : ℕ) (c : Coord)
    → c.next_virt_pid ≤ nv
    → c.next_xnd_pid ≤ nx
    → IsValid c
    → IsValid (advanced nv nx c)
advanced-IsValid nv nx c hv hx v = record {
  sized = v.sized;
  below = HasIdsBelow-mono c.next_virt_pid nv c.next_xnd_pid nx c.procs hv hx v.below;
  distinct = v.distinct;
  registered = v.registered;
  keys = λ k e. omega (arith, v.keys k e);
}

pub emit-IsValid : (e : Event) (c : Coord) → IsValid c → IsValid (emit e c)
emit-IsValid e c v = record {
  sized = v.sized;
  below = v.below;
  distinct = v.distinct;
  registered = v.registered;
  keys = v.keys;
}

-- What makes a process fit to join: its ids are its own, and where the list has its parent, that
-- parent is the process of the kernel that is its parent.
pub record Fits (c : Coord) (p : Proc) : Type 0 where
  pub virt : p.virt_pid < c.next_virt_pid
  pub xnd : p.xnd_pid < c.next_xnd_pid
  pub parent : p.virt_ppid < c.next_virt_pid
  pub other : All (HasOtherIds p) c.procs
  pub agrees : All (λ q. q.virt_pid ≡ p.virt_ppid → q.real_pid ≡ p.real_ppid) (p ∷ c.procs)

pub Fits-state : {c : Coord} {p : Proc} (s : ProcState) → Fits c p → Fits c (record p { state = s })
Fits-state s f = record {
  virt = f.virt;
  xnd = f.xnd;
  parent = f.parent;
  other = f.other;
  agrees = f.agrees;
}

pub enlist-IsValid :
    (p : Proc) (c : Coord) → IsValid c → Fits c p → Ends (λ _. IsValid) (enlist p c)
unfolding enlist proc_list_add
enlist-IsValid p c v f = returns (record {
  sized = omega (arith, v.sized);
  below = ((f.virt, f.xnd), v.below);
  distinct = (f.other, v.distinct);
  registered = IsRegistered-update own p.virt_ppid p.real_ppid (p ∷ c.procs) f.agrees (
    ground (arith, virtual_to_real-update c.table p.virt_pid p.real_pid p.virt_pid),
    IsRegistered-update c.table p.virt_pid p.real_pid c.procs
        (All-map (HasOtherIds p) (λ q. q.virt_pid ≡ p.virt_pid → q.real_pid ≡ p.real_pid) c.procs
          (λ q o e. absurd (o.0 e)) f.other)
        v.registered,
  );
  keys =
      keys-update own p.virt_ppid p.real_ppid c.next_virt_pid c.next_virt_pid
        (keys-update c.table p.virt_pid p.real_pid c.next_virt_pid c.next_virt_pid v.keys f.virt
          (omega arith))
        f.parent (omega arith);
})
  where
    own : Entries
    own = update c.table p.virt_pid p.real_pid

pub join-IsValid :
    (w : World) (garbage : Msg) (p p' : Proc) (c : Coord)
    → IsValid c
    → Fits c p'
    → Ends (λ _. IsValid) (and_then (coord_send_handshake w garbage p c) (λ _. enlist p'))
join-IsValid w garbage p p' c v f = elim (Bool-cases (w.writable p.fd)) [
  | inl up ↦ rw (coord_send_handshake_lem w garbage p c up) (
      enlist-IsValid p' (emit (sent p.fd (handshake_msg garbage c p)) c) (emit-IsValid _ c v)
        (record {
          virt = f.virt;
          xnd = f.xnd;
          parent = f.parent;
          other = f.other;
          agrees = f.agrees;
        }))
  | inr down ↦ unfold coord_send_handshake in rw down exits
]

-- Two registered processes with one virtual pid have one real pid.
pub same_real :
    (c : Coord) (p : Proc)
    → IsRegistered c.table p
    → (ps : List Proc) → All (IsRegistered c.table) ps
    → All (λ q. q.virt_pid ≡ p.virt_pid → q.real_pid ≡ p.real_pid) ps
same_real c p hp ps =
    All-map (IsRegistered c.table) (λ q. q.virt_pid ≡ p.virt_pid → q.real_pid ≡ p.real_pid) ps
      (λ q hq e.
        let same : some p.real_pid ≡ some q.real_pid =
          cc (hp, hq, ap (virtual_to_real c.table) e) in
        ground (arith, same))
