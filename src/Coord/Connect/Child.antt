-- ===== src/Coord/Connect/Child.antt =====
-- A child that starts under a process of the computation, in xnd/coordinator/xnd_coord.c.
use ckpt.Prelude.{ℕ, ◌+◌, ◌≡◌, refl, true, false, some, ◌∷◌, arith}
use ckpt.ProcList.{Proc, running, find_by_real_pid}
use ckpt.ProcList.Laws.{All-find_by_real_pid}
use ckpt.Pid.Table.{real_id_exists, virtual_to_real, update}
use ckpt.Pid.Table.Laws.{virtual_to_real-update}
use ckpt.Coord.Base.Does.{Does, does, returned_of}
use ckpt.Coord.Base.{Msg, Coord, World, returned, coord_send_msg, proc_list_add}
use ckpt.Coord.Connect.{
  coord_connect_with_process_on_launch, adopt, coord_next_xnd_pid, coord_send_handshake, enlist,
}
use ckpt.Coord.Connect.Invariant.{HasIdsBelow, IsValid, HasRoom}
use ckpt.Coord.Connect.Join.{fresh_key}

-- The first process of a list, and what the table says of it.
pub record Joined (c c' : Coord) (p parent : Proc) (real : ℕ) : Type 0 where
  pub added : c'.procs ≡ p ∷ c.procs
  pub counted : c'.size ≡ c.size + 1
  pub virt : p.virt_pid ≡ c.next_virt_pid
  pub under : p.virt_ppid ≡ parent.virt_pid
  pub group : p.xnd_pgid ≡ parent.xnd_pgid
  pub runs : p.state ≡ running
  pub known : virtual_to_real c'.table c.next_virt_pid ≡ some real

joins :
    (w : World) (garbage : Msg) (raw : Proc) (fd : ℕ) (msg : Msg) (c : Coord) (parent : Proc)
    → IsValid c
    → HasRoom c
    → c.epoch ≡ 0
    → real_id_exists c.table msg.real_pid ≡ false
    → real_id_exists c.table msg.real_ppid ≡ true
    → find_by_real_pid c.procs msg.real_ppid ≡ some parent
    → w.writable fd ≡ true
    → Does
        (λ _ c'. (p : Proc) × Joined c c' p parent msg.real_pid)
        (coord_connect_with_process_on_launch w garbage raw fd msg c)
unfolding coord_connect_with_process_on_launch adopt coord_next_xnd_pid coord_send_handshake
    coord_send_msg enlist proc_list_add
joins w garbage raw fd msg c parent v room first new known found up =
    let (below, _) =
      All-find_by_real_pid (HasIdsBelow c.next_virt_pid c.next_xnd_pid) c.procs msg.real_ppid
        v.below found in
    let fresh = fresh_key c c.next_virt_pid v (omega arith) in
    simp (new, first, known, found, fresh, up)
      (does (
        _,
        record {
          added = refl;
          counted = refl;
          virt = refl;
          under = refl;
          group = refl;
          runs = refl;
          known = ground (
            arith,
            below.0,
            virtual_to_real-update (update c.table c.next_virt_pid msg.real_pid) parent.virt_pid
                msg.real_ppid c.next_virt_pid,
            virtual_to_real-update c.table c.next_virt_pid msg.real_pid c.next_virt_pid,
          );
        },
      ))

-- A child of a process of the list that is launched joins it: the handler returns, and the list
-- starts with a running process that has the next virtual pid, the parent and the group of its
-- parent, and whose virtual pid the table translates to its real pid. The state is valid, there is
-- room for two more ids of each kind, no checkpoint has been taken, the real pid is new, and the
-- child can be written to.
pub launch_child :
    (w : World) (garbage : Msg) (raw : Proc) (fd : ℕ) (msg : Msg) (c : Coord) (parent : Proc)
    → IsValid c
    → HasRoom c
    → c.epoch ≡ 0
    → real_id_exists c.table msg.real_pid ≡ false
    → real_id_exists c.table msg.real_ppid ≡ true
    → find_by_real_pid c.procs msg.real_ppid ≡ some parent
    → w.writable fd ≡ true
    → (c' : Coord) × (p : Proc) × (coord_connect_with_process_on_launch w garbage raw fd msg c
        ≡ returned tt c')
      × Joined c c' p parent msg.real_pid
launch_child w garbage raw fd msg c parent v room first new known found up =
    let (_, c', e, (p, joined)) =
      returned_of (joins w garbage raw fd msg c parent v room first new known found up) in
    (c', p, e, joined)
