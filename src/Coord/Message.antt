-- ===== src/Coord/Message.antt =====
-- What the coordinator of xnd/coordinator/xnd_coord.c answers to a message of a process.
pub mod Laws
use ckpt.Prelude.{
  ℕ, ◌-◌, Bool, true, false, not, Option, none, some, ◌==◌, if◌then◌else◌, minus_one,
}
use ckpt.ProcList
use ckpt.ProcList.{Proc, find_by_real_pid, remove_by_real_pid}
use ckpt.Pid.Table.{pid_table_virtual_to_real, pid_table_real_to_virtual}
use ckpt.Coord.Base.{
  MsgHdr, exit_msg, virt_to_real, real_to_virt, coord_ack, success, failure, Msg, zeroed, Coord, M,
  pure, ◌>>=◌, check, World, coord_send_msg, proc_exit_callback, exit_failure, coord_exit, sent,
}

-- `proc_list_remove` of a process found by its real pid, its callback included.
unfoldable pub remove_found : Proc → Coord → Coord
unfolding proc_exit_callback
remove_found p c =
    let c' = proc_exit_callback p (record c { procs = remove_by_real_pid c.procs p.real_pid }) in
    record c' { size = c'.size - 1 }

-- An answer that cannot be sent fails an assertion.
unfoldable pub answer : World → ℕ → Msg → M (Unit {0})
unfolding coord_send_msg
answer w fd resp = do done ← coord_send_msg w fd resp; check done

unfoldable pub coord_send_virt_to_real : World → ℕ → Msg → M (Unit {0})
unfolding answer
coord_send_virt_to_real w fd msg c =
    let virt = msg.virt_pid in
    let in_table = pid_table_virtual_to_real c.table virt in
    let in_list = ProcList.virt_to_real c.procs virt in
    let found : ℕ → Msg = λ real. record (zeroed coord_ack success) { real_pid = real } in
    let resp : Msg =
      (if not (in_table == minus_one)
        then found in_table
        else if not (in_list == minus_one)
        then found in_list
        else record (zeroed coord_ack failure) { real_pid = minus_one }) in
    answer w fd resp c

unfoldable pub coord_send_real_to_virt : World → ℕ → Msg → M (Unit {0})
unfolding answer
coord_send_real_to_virt w fd msg c =
    let real = msg.real_pid in
    let in_table = pid_table_real_to_virtual c.table real in
    let in_list = ProcList.real_to_virt c.procs real in
    let found : ℕ → Msg = λ virt. record (zeroed coord_ack success) { virt_pid = virt } in
    let resp : Msg =
      (if not (in_table == minus_one)
        then found in_table
        else if not (in_list == minus_one)
        then found in_list
        else record (zeroed coord_ack failure) { virt_pid = minus_one }) in
    answer w fd resp c

-- A process that exited and is not in the list is only reported.
forget : Option Proc → M (Unit {0})
unfolding remove_found
forget none c = pure tt c
forget (some p) c = pure tt (remove_found p c)

handle_hdr : World → ℕ → Msg → MsgHdr → M (Unit {0})
unfolding forget coord_send_virt_to_real coord_send_real_to_virt coord_exit
handle_hdr w fd msg exit_msg c = forget (find_by_real_pid c.procs msg.real_pid) c
handle_hdr w fd msg virt_to_real c = coord_send_virt_to_real w fd msg c
handle_hdr w fd msg real_to_virt c = coord_send_real_to_virt w fd msg c
handle_hdr w fd msg other c = coord_exit exit_failure c

unfoldable pub coord_handle_msg : World → ℕ → Msg → M (Unit {0})
unfolding handle_hdr
coord_handle_msg w fd msg = handle_hdr w fd msg msg.hdr
