-- ===== src/Coord/Serve/Laws.antt =====
-- A connection to the coordinator of xnd/coordinator/xnd_coord.c, whatever it is for.
use ckpt.Prelude.{
  ℕ, ◌<◌, ◌≡◌, ◌≢◌, refl, sym, ◌∙◌, Option, none, some, List, [], ◌∷◌, ◌==◌, length, All,
  Bool-cases, inl, inr, arith,
}
use ckpt.ProcList.{Proc, modify_by_xnd_pid}
use ckpt.Coord.Base.{
  MsgHdr, connect_launch, connect_restart, atfork_prepare, command, virt_to_real, real_to_virt, Msg,
  Coord, M, coord_recv_msg, coord_exit,
}
use ckpt.Coord.Base.Ends.{Ends, returns, exits, aborts}
use ckpt.Coord.Connect.Invariant.{
  HasIdsBelow, HasOtherIds, Distinct, IsRegistered, IsValid, HasRoom,
}
use ckpt.Coord.Connect.Launch.{launch-IsValid}
use ckpt.Coord.Connect.Fork.{atfork-IsValid}
use ckpt.Coord.Connect.Restart.{Brings, restart-IsValid}
use ckpt.Coord.Message.{coord_send_virt_to_real, coord_send_real_to_virt}
use ckpt.Coord.Message.Laws.{answer-IsValid}
use ckpt.Coord.Serve.{
  query_on, restarted_by, Arrival, dispatch, receive_on, on_accepted, coord_wait_for_connection,
}

abbrev heard_on : ℕ → Proc → Proc
heard_on fd p = record p { oob_fd = fd }

All-heard :
    (P : Proc → Type 0) (fd : ℕ) (ps : List Proc) (xnd : ℕ)
    → ((p : Proc) → P p → P (heard_on fd p))
    → All P ps
    → All P (modify_by_xnd_pid (heard_on fd) ps xnd)
unfolding modify_by_xnd_pid
All-heard P fd [] xnd keep h = tt
All-heard P fd (q ∷ ps) xnd keep h = elim (Bool-cases (q.xnd_pid == xnd)) [
  | inl hit ↦ rw hit (keep q h.0, h.1)
  | inr miss ↦ rw miss (h.0, All-heard P fd ps xnd keep h.1)
]

Distinct-heard :
    (fd : ℕ) (ps : List Proc) (xnd : ℕ)
    → Distinct ps
    → Distinct (modify_by_xnd_pid (heard_on fd) ps xnd)
unfolding modify_by_xnd_pid
Distinct-heard fd [] xnd d = tt
Distinct-heard fd (p ∷ ps) xnd d = elim (Bool-cases (p.xnd_pid == xnd)) [
  | inl hit ↦ rw hit d
  | inr miss ↦
      rw miss (All-heard (HasOtherIds p) fd ps xnd (λ q h. h) d.0, Distinct-heard fd ps xnd d.1)
]

length-heard :
    (fd : ℕ) (ps : List Proc) (xnd : ℕ)
    → length (modify_by_xnd_pid (heard_on fd) ps xnd) ≡ length ps
unfolding modify_by_xnd_pid
length-heard fd [] xnd = refl
length-heard fd (q ∷ ps) xnd = ground (arith, length-heard fd ps xnd)

heard-IsValid :
    (c : Coord) (fd xnd : ℕ)
    → IsValid c
    → IsValid (record c { procs = modify_by_xnd_pid (heard_on fd) c.procs xnd })
heard-IsValid c fd xnd v = record {
  sized = v.sized ∙ sym (length-heard fd c.procs xnd);
  below = All-heard (HasIdsBelow c.next_virt_pid c.next_xnd_pid) fd c.procs xnd (λ p h. h) v.below;
  distinct = Distinct-heard fd c.procs xnd v.distinct;
  registered = All-heard (IsRegistered c.table) fd c.procs xnd (λ p h. h) v.registered;
  keys = v.keys;
}

query-IsValid :
    (fd : ℕ) (msg : Msg) (query : M (Unit {0})) (o : Option Proc) (c : Coord)
    → IsValid c
    → ((d : Coord) → IsValid d → Ends (λ _. IsValid) (query d))
    → Ends (λ _. IsValid) (query_on fd msg query o c)
unfolding query_on
query-IsValid fd msg query none c v next = aborts
query-IsValid fd msg query (some p) c v next = next _ (heard-IsValid c fd msg.xnd_pid v)

restarted_by-IsValid : (msg : Msg) (c : Coord) → IsValid c → IsValid (restarted_by msg c)
restarted_by-IsValid msg c v = elim (Bool-cases (c.size == 0)) [
  | inl first ↦ rw first (record {
    sized = v.sized;
    below = v.below;
    distinct = v.distinct;
    registered = v.registered;
    keys = v.keys;
  })
  | inr later ↦ rw later v
]

restarted_by-room :
    (msg : Msg) (c : Coord)
    → c.next_virt_pid < 2147483648
    → (restarted_by msg c).next_virt_pid < 2147483648
restarted_by-room msg c room = elim (Bool-cases (c.size == 0)) [
  | inl first ↦ rw first room
  | inr later ↦ rw later room
]

-- A message that opens a connection: no command, and ids of its own if it is a restart's.
pub record IsFair (c : Coord) (msg : Msg) : Type 0 where
  pub no_command : msg.hdr ≢ command
  pub brings : msg.hdr ≡ connect_restart → Brings (restarted_by msg c) msg

dispatch-IsValid :
    (a : Arrival) (fd : ℕ) (msg : Msg) (hdr : MsgHdr) (c : Coord)
    → IsValid c
    → HasRoom c
    → IsFair c msg
    → msg.hdr ≡ hdr
    → Ends (λ _. IsValid) (dispatch a fd msg hdr c)
unfolding dispatch
dispatch-IsValid a fd msg connect_launch c v room fair e =
    launch-IsValid a.world a.garbage a.raw fd msg c v room
dispatch-IsValid a fd msg connect_restart c v room fair e =
    restart-IsValid a.world a.garbage a.raw fd msg (restarted_by msg c)
      (restarted_by-IsValid msg c v) (restarted_by-room msg c (omega arith)) (fair.brings e)
dispatch-IsValid a fd msg atfork_prepare c v room fair e =
    atfork-IsValid a.world a.garbage a.raw fd msg c v room
dispatch-IsValid a fd msg command c v room fair e = absurd (fair.no_command e)
dispatch-IsValid a fd msg real_to_virt c v room fair e =
    query-IsValid fd msg _ _ c v
      (λ d w. unfold coord_send_real_to_virt in answer-IsValid a.world fd _ d w)
dispatch-IsValid a fd msg virt_to_real c v room fair e =
    query-IsValid fd msg _ _ c v
      (λ d w. unfold coord_send_virt_to_real in answer-IsValid a.world fd _ d w)
dispatch-IsValid a fd msg _ c v room fair e = unfold coord_exit in exits

receive-IsValid :
    (a : Arrival) (fd : ℕ) (o : Option Msg) (c : Coord)
    → IsValid c
    → HasRoom c
    → ((msg : Msg) → o ≡ some msg → IsFair c msg)
    → Ends (λ _. IsValid) (receive_on a fd o c)
unfolding receive_on
receive-IsValid a fd none c v room fair = aborts
receive-IsValid a fd (some msg) c v room fair =
    dispatch-IsValid a fd msg msg.hdr c v room (fair msg refl) refl

accepted-IsValid :
    (a : Arrival) (o : Option ℕ) (c : Coord)
    → IsValid c
    → HasRoom c
    → ((fd : ℕ) (msg : Msg) → coord_recv_msg a.world fd ≡ some msg → IsFair c msg)
    → Ends (λ _. IsValid) (on_accepted a o c)
unfolding on_accepted
accepted-IsValid a none c v room fair = returns v
accepted-IsValid a (some fd) c v room fair =
    receive-IsValid a fd (coord_recv_msg a.world fd) c v room (fair fd)

-- A wait for a connection leaves a valid state where it returns, whoever connects and whatever the
-- first message says, unless it is a command, or a restart that does not meet these conditions: its
-- two ids are those of no listed process and below the greatest of their types, the virtual pid of
-- its parent is less than its own, and each listed process with that virtual pid has the real pid
-- that the message gives for the parent. There is room for two more ids of each kind.
pub connection-IsValid :
    (a : Arrival) (c : Coord)
    → IsValid c
    → HasRoom c
    → ((fd : ℕ) (msg : Msg) → coord_recv_msg a.world fd ≡ some msg → IsFair c msg)
    → Ends (λ _. IsValid) (coord_wait_for_connection a c)
unfolding coord_wait_for_connection
connection-IsValid a c v room fair = accepted-IsValid a a.accepted c v room fair
