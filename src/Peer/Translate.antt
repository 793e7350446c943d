-- ===== src/Peer/Translate.antt =====
-- The translation of pids: `virt_to_real_pid_from_coord` and `real_to_virt_pid_from_coord` of
-- xnd/coordinator/xnd_coord_client.c, and `virtual_to_real_pid` and `real_to_virtual_pid` of
-- xnd/pid/pid_wrappers.c.
pub mod Laws
use ckpt.Prelude.{
  ℕ, Bool, true, false, not, Option, none, some, ◌==◌, if◌then◌else◌, leb, minus_one,
}
use ckpt.Pid.Table.{Entries, pid_table_virtual_to_real, pid_table_real_to_virtual}
use ckpt.Coord.Base.{
  MsgHdr, coord_ack, virt_to_real, real_to_virt, CoordReturn, success, failure, Msg,
}
use ckpt.Peer.Base.{
  Peer, done, P, pure, and_then, ◌>>=◌, ◌>>◌, oob_lock, oob_unlock, pid_table_acquire,
  pid_table_release,
}

-- The coordinator as a process finds it: what `connect_to_coord` returns, whether a message on a
-- descriptor goes out, and what is then received on it. `garbage` is the memory of a message
-- before its fields are set.
pub record Link : Type 0 where
  pub connect_to_coord : ℕ
  pub sends : ℕ → Msg → Bool
  pub receives : ℕ → Msg → Option Msg
  pub garbage : Msg

abbrev is_coord_ack : MsgHdr → Bool
is_coord_ack coord_ack = true
is_coord_ack _ = false

abbrev is_success : CoordReturn → Bool
is_success success = true
is_success failure = false

abbrev is_negative : ℕ → Bool
is_negative n = leb 2147483648 n

-- The connection for requests: `none` if it cannot be made.
unfoldable pub open_oob : Link → Msg → P (Option Msg)
open_oob link msg p =
    let fd = link.connect_to_coord in
    if p.oob_fd == minus_one
    then if is_negative fd
      then done none (record p { oob_fd = fd })
      else done (some (record msg { xnd_pid = p.xnd_pid })) (record p { oob_fd = fd })
    else done (some msg) p

-- An answer that is an acknowledgement of success.
abbrev pub accepted : (Msg → ℕ) → Option Msg → ℕ
accepted field none = minus_one
accepted field (some resp) =
    if is_coord_ack resp.hdr
    then if is_success resp.ret then field resp else minus_one
    else minus_one

-- The request and its answer on the open connection.
unfoldable pub exchange : Link → (Msg → ℕ) → ℕ → Option Msg → ℕ
exchange link field fd none = minus_one
exchange link field fd (some msg) =
    if link.sends fd msg then accepted field (link.receives fd msg) else minus_one

abbrev pub exchange_on : Link → (Msg → ℕ) → Option Msg → P ℕ
exchange_on link field msg p = done (exchange link field p.oob_fd msg) p

-- A request, under the lock.
unfoldable pub request : Link → (Msg → ℕ) → Msg → P ℕ
unfolding oob_lock oob_unlock open_oob exchange
request link field msg = do
  oob_lock
  opened ← open_oob link msg
  result ← exchange_on link field opened
  oob_unlock
  pure result

unfoldable pub virt_to_real_pid_from_coord : Link → ℕ → P ℕ
unfolding request
virt_to_real_pid_from_coord link virt =
    request link (λ resp. resp.real_pid)
      (record link.garbage { hdr = virt_to_real; virt_pid = virt })

unfoldable pub real_to_virt_pid_from_coord : Link → ℕ → P ℕ
unfolding request
real_to_virt_pid_from_coord link real =
    request link (λ resp. resp.virt_pid)
      (record link.garbage { hdr = real_to_virt; real_pid = real })

-- What both translations do: the table is searched under its lock, and where it has no answer the
-- coordinator is asked, the lock still held.
unfoldable pub translate : (Entries → ℕ) → P ℕ → P ℕ
unfolding pid_table_acquire pid_table_release
translate known ask = do
  pid_table_acquire
  id ← (λ p. if not (known p.table == minus_one) then done (known p.table) p else ask p)
  pid_table_release
  pure id

unfoldable pub virtual_to_real_pid : Link → ℕ → P ℕ
unfolding translate virt_to_real_pid_from_coord
virtual_to_real_pid link virt =
    translate (λ table. pid_table_virtual_to_real table virt)
      (virt_to_real_pid_from_coord link virt)

unfoldable pub real_to_virtual_pid : Link → ℕ → P ℕ
unfolding translate real_to_virt_pid_from_coord
real_to_virtual_pid link real =
    translate (λ table. pid_table_real_to_virtual table real)
      (real_to_virt_pid_from_coord link real)
