-- ===== src/Coord/Connect/Launch.antt =====
-- coord_connect_with_process_on_launch of xnd/coordinator/xnd_coord.c.
use ckpt.Prelude.{
  ℕ, ◌+◌, ◌≡◌, subst, Option, some, none, ◌==◌, All, All-map, Bool-cases, Option-cases, inl, inr,
  arith, minus_one,
}
use ckpt.ProcList.{Proc, running, find_by_real_pid, modify_by_real_pid}
use ckpt.ProcList.Laws.{All-find_by_real_pid, All-modify_by_real_pid, length-modify_by_real_pid}
use ckpt.Pid.Table.{real_id_exists}
use ckpt.Coord.Base.{Msg, Coord, returned, World, emit, closed}
use ckpt.Coord.Base.Ends.{Ends, returns, exits, aborts}
use ckpt.Coord.Connect.{reconnect, adopt, found_group, coord_connect_with_process_on_launch}
use ckpt.Coord.Connect.Invariant.{
  HasIdsBelow, IsRegistered, IsValid, HasRoom, HasOtherIds-below, moved_to, Distinct-moved,
}
use ckpt.Coord.Connect.Join.{
  advanced, fresh_key, coord_next_virt_pid_lem, advanced-IsValid, emit-IsValid, Fits, Fits-state,
  join-IsValid, same_real,
}

-- A new group gets two ids of each kind, the first of each for the parent.
abbrev pub grouped : Coord → Proc → Proc
grouped c p = record p {
  virt_ppid = c.next_virt_pid;
  virt_pid = c.next_virt_pid + 1;
  xnd_ppid = c.next_xnd_pid;
  xnd_pid = c.next_xnd_pid + 1;
  xnd_pgid = c.next_xnd_pid + 1;
}

pub found_group_lem :
    (p : Proc) (c : Coord)
    → IsValid c
    → HasRoom c
    → found_group p c
      ≡ returned (grouped c p) (record c {
        next_virt_pid = c.next_virt_pid + 1 + 1;
        next_xnd_pid = c.next_xnd_pid + 1 + 1;
      })
unfolding found_group
found_group_lem p c v room =
    rw (coord_next_virt_pid_lem c (fresh_key c c.next_virt_pid v (omega arith)) (omega arith)) (
      rw
        (coord_next_virt_pid_lem (record c { next_virt_pid = c.next_virt_pid + 1 })
          (fresh_key c (c.next_virt_pid + 1) v (omega arith)) (omega arith))
        (ground arith))

-- A child of a process of the list gets one id of each kind, and its parent's.
abbrev pub adopted : Coord → Proc → Proc → Proc
adopted c parent p = record p {
  virt_ppid = parent.virt_pid;
  xnd_ppid = parent.xnd_pid;
  xnd_pgid = parent.xnd_pgid;
  virt_pid = c.next_virt_pid;
  xnd_pid = c.next_xnd_pid;
}

pub adopt_lem :
    (p parent : Proc) (c : Coord)
    → IsValid c
    → HasRoom c
    → adopt p (some parent) c
      ≡ returned
          (adopted c parent p)
          (record c { next_virt_pid = c.next_virt_pid + 1; next_xnd_pid = c.next_xnd_pid + 1 })
unfolding adopt
adopt_lem p parent c v room =
    rw (coord_next_virt_pid_lem c (fresh_key c c.next_virt_pid v (omega arith)) (omega arith))
      (ground arith)

moved-IsValid :
    (c : Coord) (fd real : ℕ)
    → IsValid c
    → IsValid (record c { procs = modify_by_real_pid (moved_to fd) c.procs real })
moved-IsValid c fd real v = record {
  sized = omega (arith, v.sized, length-modify_by_real_pid (moved_to fd) c.procs real);
  below =
      All-modify_by_real_pid (HasIdsBelow c.next_virt_pid c.next_xnd_pid) (moved_to fd) c.procs real
        (λ p h. h) v.below;
  distinct = Distinct-moved fd c.procs real v.distinct;
  registered =
      All-modify_by_real_pid (IsRegistered c.table) (moved_to fd) c.procs real (λ p h. h)
        v.registered;
  keys = v.keys;
}

reconnect-IsValid :
    (w : World) (garbage : Msg) (fd : ℕ) (c : Coord) (o : Option Proc)
    → IsValid c
    → Ends (λ _. IsValid) (reconnect w garbage fd o c)
unfolding reconnect
reconnect-IsValid w garbage fd c none v = aborts
reconnect-IsValid w garbage fd c (some p) v = elim (Bool-cases (w.writable fd)) [
  | inl up ↦ rw up (
      returns (
        emit-IsValid _ _
          (moved-IsValid (emit (closed p.fd) c) fd p.real_pid (emit-IsValid (closed p.fd) c v))))
  | inr down ↦ rw down exits
]

grouped-Fits :
    (p : Proc) (c : Coord)
    → IsValid c
    → Fits (advanced (c.next_virt_pid + 1 + 1) (c.next_xnd_pid + 1 + 1) c) (grouped c p)
grouped-Fits p c v = record {
  virt = omega arith;
  xnd = omega arith;
  parent = omega arith;
  other =
      HasOtherIds-below (grouped c p) c.next_virt_pid c.next_xnd_pid c.procs (omega arith)
        (omega arith) v.below;
  agrees = (
    λ e. absurd (omega (arith, e)),
    All-map (HasIdsBelow c.next_virt_pid c.next_xnd_pid)
        (λ q. q.virt_pid ≡ c.next_virt_pid → q.real_pid ≡ p.real_ppid) c.procs
        (λ q h e. absurd (omega arith)) v.below,
  );
}

adopted-Fits :
    (p parent : Proc) (c : Coord)
    → IsValid c
    → find_by_real_pid c.procs p.real_ppid ≡ some parent
    → Fits (advanced (c.next_virt_pid + 1) (c.next_xnd_pid + 1) c) (adopted c parent p)
adopted-Fits p parent c v found =
    let (below, _) =
      All-find_by_real_pid (HasIdsBelow c.next_virt_pid c.next_xnd_pid) c.procs p.real_ppid v.below
        found in
    let (known, real) =
      All-find_by_real_pid (IsRegistered c.table) c.procs p.real_ppid v.registered found in
    record {
      virt = omega arith;
      xnd = omega arith;
      parent = omega arith;
      other =
          HasOtherIds-below (adopted c parent p) c.next_virt_pid c.next_xnd_pid c.procs
            (omega arith) (omega arith) v.below;
      agrees = (
        λ e. absurd (omega arith),
        subst (λ r. All (λ q. q.virt_pid ≡ parent.virt_pid → q.real_pid ≡ r) c.procs) real
            (same_real c parent known c.procs v.registered),
      );
    }

-- A launch, or a new connection of a process that is known, leaves a valid state where it returns,
-- whatever the process claims of itself and whether or not it can be written to. There is room for
-- two more ids of each kind.
pub launch-IsValid :
    (w : World) (garbage : Msg) (raw : Proc) (fd : ℕ) (msg : Msg) (c : Coord)
    → IsValid c
    → HasRoom c
    → Ends (λ _. IsValid) (coord_connect_with_process_on_launch w garbage raw fd msg c)
unfolding coord_connect_with_process_on_launch
launch-IsValid w garbage raw fd msg c v room =
    elim (Bool-cases (real_id_exists c.table msg.real_pid)) [
      | inl old ↦
          rw old (reconnect-IsValid w garbage fd c (find_by_real_pid c.procs msg.real_pid) v)
      | inr new ↦ rw new (elim (Bool-cases (c.epoch == 0)) [
        | inl first ↦ rw first (elim (Bool-cases (real_id_exists c.table msg.real_ppid)) [
          | inl parent ↦ rw parent (elim (Option-cases (find_by_real_pid c.procs msg.real_ppid)) [
            | inl missing ↦ rw missing aborts
            | inr (q, found) ↦ rw found (
                rw (adopt_lem p q c v room) (
                  join-IsValid w garbage (adopted c q p) _ _
                    (advanced-IsValid _ _ c (omega arith) (omega arith) v)
                    (Fits-state running (adopted-Fits p q c v found))))
          ])
          | inr root ↦ rw root (
              rw (found_group_lem p c v room) (
                join-IsValid w garbage (grouped c p) _ _
                  (advanced-IsValid _ _ c (omega arith) (omega arith) v)
                  (Fits-state running (grouped-Fits p c v))))
        ])
        | inr later ↦ rw later aborts
      ])
    ]
  where
    p : Proc
    p = record raw {
      fd = fd;
      oob_fd = minus_one;
      real_pid = msg.real_pid;
      real_ppid = msg.real_ppid;
    }
