-- ===== src/Coord/Connect/Fork.antt =====
-- coord_atfork of xnd/coordinator/xnd_coord.c.
use ckpt.Prelude.{
  ℕ, ◌+◌, ◌<◌, ◌≡◌, refl, subst, sym, Option, some, none, ◌==◌, All, Bool-cases, inl, inr, arith,
  minus_one, next32,
}
use ckpt.ProcList.{Proc, running, find_by_virt_pid}
use ckpt.ProcList.Laws.{All-find_by_virt_pid}
use ckpt.Coord.Base.{coord_recv_msg, Msg, Coord, World}
use ckpt.Coord.Base.Ends.{Ends, exits, aborts}
use ckpt.Coord.Connect.{coord_atfork, welcome, is_atfork_child}
use ckpt.Coord.Connect.Invariant.{
  HasIdsBelow, HasOtherIds, IsRegistered, IsValid, HasRoom, HasOtherIds-below,
}
use ckpt.Coord.Connect.Join.{
  fresh_key, coord_next_virt_pid_lem, advanced-IsValid, emit-IsValid, Fits, Fits-state,
  join-IsValid, same_real,
}

abbrev child_of : Proc → (fd v x : ℕ) → Msg → Proc
child_of raw fd v x parent_msg = record raw {
  fd = fd;
  oob_fd = minus_one;
  virt_pid = v;
  xnd_pid = x;
  virt_ppid = parent_msg.virt_ppid;
  xnd_ppid = parent_msg.xnd_ppid;
  xnd_pgid = parent_msg.xnd_pgid;
}

welcome-IsValid :
    (w : World) (garbage : Msg) (child : Proc) (c : Coord) (o : Option Proc) (m : Option Msg)
    → IsValid c
    → find_by_virt_pid c.procs child.virt_ppid ≡ o
    → child.virt_pid < c.next_virt_pid
    → child.xnd_pid < c.next_xnd_pid
    → All (HasOtherIds child) c.procs
    → Ends (λ _. IsValid) (welcome w garbage child o m c)
unfolding welcome
welcome-IsValid w garbage child c none m v found hv hx other = exits
welcome-IsValid w garbage child c (some parent) none v found hv hx other = exits
welcome-IsValid w garbage child c (some parent) (some msg) v found hv hx other =
    elim (Bool-cases (is_atfork_child msg.hdr)) [
      | inl ours ↦ rw ours (elim (Bool-cases (msg.real_ppid == parent.real_pid)) [
        | inl agreed ↦ rw agreed (
            join-IsValid w garbage child' (record child' { state = running }) c v
              (Fits-state running (fits (ground arith))))
        | inr apart ↦ rw apart aborts
      ])
      | inr other ↦ rw other aborts
    ]
  where
    child' : Proc
    child' = record child { real_pid = msg.real_pid; real_ppid = msg.real_ppid }

    fits : msg.real_ppid ≡ parent.real_pid → Fits c child'
    fits agreed =
        let (below, _) =
          All-find_by_virt_pid (HasIdsBelow c.next_virt_pid c.next_xnd_pid) c.procs child.virt_ppid
            v.below found in
        let (apart, _) =
          All-find_by_virt_pid (HasOtherIds child) c.procs child.virt_ppid other found in
        let (known, virt) =
          All-find_by_virt_pid (IsRegistered c.table) c.procs child.virt_ppid v.registered found in
        record {
          virt = hv;
          xnd = hx;
          parent = omega arith;
          other = other;
          agrees = (
            λ e. absurd (apart.0 (omega arith)),
            subst (λ r. All (λ q. q.virt_pid ≡ child.virt_ppid → q.real_pid ≡ r) c.procs)
                (sym agreed)
                (subst (λ u. All (λ q. q.virt_pid ≡ u → q.real_pid ≡ parent.real_pid) c.procs) virt
                  (same_real c parent known c.procs v.registered)),
          );
        }

-- A fork leaves a valid state where it returns, whatever the parent claims of itself, whether or
-- not the child answers, and whatever it answers. There is room for two more ids of each kind.
pub atfork-IsValid :
    (w : World) (garbage : Msg) (raw : Proc) (fd : ℕ) (parent_msg : Msg) (c : Coord)
    → IsValid c
    → HasRoom c
    → Ends (λ _. IsValid) (coord_atfork w garbage raw fd parent_msg c)
unfolding coord_atfork
atfork-IsValid w garbage raw fd parent_msg c v room =
    rw (coord_next_virt_pid_lem c (fresh_key c c.next_virt_pid v (omega arith)) (omega arith))
      (elim (Bool-cases (w.writable fd)) [
        | inl up ↦ rw up (
            welcome-IsValid w garbage (child_of raw fd c.next_virt_pid c.next_xnd_pid parent_msg) _
              _ (coord_recv_msg w fd)
              (emit-IsValid _ _ (
                advanced-IsValid (c.next_virt_pid + 1) (next32 c.next_xnd_pid) c (omega arith)
                  (omega arith) v))
              refl (omega arith) (omega arith)
              (HasOtherIds-below (child_of raw fd c.next_virt_pid c.next_xnd_pid parent_msg)
                c.next_virt_pid c.next_xnd_pid c.procs (omega arith) (omega arith) v.below))
        | inr down ↦ rw down exits
      ])
