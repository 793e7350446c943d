-- ===== src/Peer/Agree.antt =====
-- A process (xnd/coordinator/xnd_coord_client.c) and the coordinator (xnd/coordinator/xnd_coord.c)
-- together: what the one sends, the other handles.
use ckpt.Prelude.{
  ℕ, ◌<◌, ◌≡◌, ◌≢◌, refl, ap, sym, ◌∙◌, true, false, Option, none, some, List, [], ◌∷◌, ◌++◌, leb,
  arith, minus_one,
}
use ckpt.ProcList.{Proc, find_by_virt_pid}
use ckpt.Pid.Table.{virtual_to_real, pid_table_virtual_to_real, or_minus_one}
use ckpt.Coord.Base.{
  exit_msg, virt_to_real, success, Msg, zeroed, Event, sent, Coord, Run, returned, exited, aborted,
  unfinished, World, exit_failure, coord_exit, coord_cleanup, emit, coord_recv_msg,
}
use ckpt.Coord.Connect.Invariant.{IsValid}
use ckpt.Coord.Message.{coord_handle_msg}
use ckpt.Coord.Message.Laws.{virt_to_real_answer, found_real}
use ckpt.Coord.Serve.{Arrival, coord_wait_for_connection, on_accepted, receive_on, dispatch}
use ckpt.Peer.Base.{Peer, done, oob_lock, oob_unlock}
use ckpt.Peer.Translate.{
  Link, accepted, open_oob, exchange, request, virt_to_real_pid_from_coord, virtual_to_real_pid,
}
use ckpt.Peer.Translate.Laws.{IsFree, translate_asked}
use ckpt.Peer.Pid.{notify_coord_of_exit}
use ckpt.Peer.Pid.Laws.{unequal}

abbrev sent_msg : Event → Option Msg
sent_msg (sent fd msg) = some msg
sent_msg _ = none

abbrev or_else : Option Msg → Option Msg → Option Msg
or_else none other = other
or_else (some msg) other = some msg

abbrev pub last_sent : List Event → Option Msg
last_sent [] = none
last_sent (e ∷ log) = or_else (last_sent log) (sent_msg e)

-- The message that a run of the coordinator sends last.
abbrev pub reply : Run (Unit {0}) → Option Msg
reply (returned a c) = last_sent c.log
reply (exited s c) = none
reply aborted = none
reply unfinished = none

last_sent-append :
    (log : List Event) (fd : ℕ) (msg : Msg) → last_sent (log ++ (sent fd msg ∷ [])) ≡ some msg
last_sent-append [] fd msg = refl
last_sent-append (e ∷ log) fd msg = rw (last_sent-append log fd msg) refl

-- The request for the real pid of a virtual one, on a connection that is open.
abbrev pub request_for : Link → ℕ → Msg
request_for link virt = record link.garbage { hdr = virt_to_real; virt_pid = virt }

-- A request on an open connection.
request_open :
    (link : Link) (virt : ℕ) (resp : Msg) (p : Peer)
    → accepted (λ m. m.real_pid) (some resp) ≡ resp.real_pid
    → p.oob_locked ≡ false
    → p.oob_fd ≢ minus_one
    → link.sends p.oob_fd (request_for link virt) ≡ true
    → link.receives p.oob_fd (request_for link virt) ≡ some resp
    → virt_to_real_pid_from_coord link virt p ≡ done resp.real_pid p
unfolding virt_to_real_pid_from_coord request open_oob exchange oob_lock oob_unlock
request_open link virt resp p accept free there sends receives =
    simp (free, unequal p.oob_fd minus_one there, sends, receives, accept)
      (ap (λ b. done resp.real_pid (record p { oob_locked = b })) (sym free))

-- A process that asks the coordinator for the real pid of a process that is registered there gets
-- it, and its own state is as before. The coordinator's state is valid and the real pid is not -1;
-- the asking process holds no lock, does not have the virtual pid in its own table and has an open
-- connection, on which it receives what the coordinator sends on handling the request.
pub translation_agrees :
    (link : Link) (p : Peer) (w : World) (fd : ℕ) (c : Coord) (q : Proc) (virt : ℕ)
    → IsFree p
    → p.oob_fd ≢ minus_one
    → virtual_to_real p.table virt ≡ none
    → link.sends p.oob_fd (request_for link virt) ≡ true
    → link.receives p.oob_fd (request_for link virt)
      ≡ reply (coord_handle_msg w fd (request_for link virt) c)
    → IsValid c
    → find_by_virt_pid c.procs virt ≡ some q
    → w.writable fd ≡ true
    → q.real_pid ≢ minus_one
    → virtual_to_real_pid link virt p ≡ done q.real_pid p
unfolding virtual_to_real_pid pid_table_virtual_to_real
translation_agrees link p w fd c q virt free there unknown sends receives v found up real =
    translate_asked (λ table. pid_table_virtual_to_real table virt)
      (virt_to_real_pid_from_coord link virt) p free q.real_pid (ap or_minus_one unknown)
      (request_open link virt (found_real q.real_pid) (record p { table_locked = true }) refl
        free.oob_free there sends
        (receives ∙ ap reply answered ∙ last_sent-append c.log fd (found_real q.real_pid)))
  where
    answered :
        coord_handle_msg w fd (request_for link virt) c
        ≡ returned tt (emit (sent fd (found_real q.real_pid)) c)
    answered = virt_to_real_answer w fd (request_for link virt) c q v refl found up real

-- The message of an exit, as the first on a connection.
abbrev pub exit_message : Peer → ℕ → Msg
exit_message p pid = record (zeroed exit_msg success) { real_pid = pid; xnd_pid = p.xnd_pid }

-- A process with no open connection and no lock held that reports an exit ends the coordinator: the
-- report is sent as the first message of a new connection, and a coordinator that receives it there
-- exits with an error. The connection can be made and written to.
pub notify_ends_coordinator :
    (link : Link) (p : Peer) (pid fd : ℕ) (a : Arrival) (c : Coord)
    → IsFree p
    → p.oob_fd ≡ minus_one
    → link.connect_to_coord < 2147483648
    → link.sends link.connect_to_coord (exit_message p pid) ≡ true
    → a.accepted ≡ some fd
    → coord_recv_msg a.world fd ≡ some (exit_message p pid)
    → (notify_coord_of_exit link pid p
        ≡ done tt
            (record p { oob_fd = link.connect_to_coord; notified = p.notified ++ (pid ∷ []) }))
      × (coord_wait_for_connection a c ≡ exited exit_failure (coord_cleanup true c))
unfolding notify_coord_of_exit open_oob oob_lock oob_unlock coord_wait_for_connection on_accepted
    receive_on dispatch coord_exit
notify_ends_coordinator link p pid fd a c free shut made sends arrives receives =
    (simp (free.oob_free, shut, positive, sends) refl, rw (arrives, receives) refl)
  where
    positive : leb 2147483648 link.connect_to_coord ≡ false
    positive = ground arith
