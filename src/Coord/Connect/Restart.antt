-- ===== src/Coord/Connect/Restart.antt =====
-- coord_connect_with_process_on_restart of xnd/coordinator/xnd_coord.c.
use ckpt.Prelude.{
  ℕ, ◌<◌, ◌≤◌, ◌≡◌, ◌≢◌, List, [], ◌∷◌, if◌then◌else◌, All, arith, minus_one, next32, leb,
  ge_signed,
}
use ckpt.ProcList.{Proc, restart_in_progress}
use ckpt.Coord.Base.{Msg, Coord, World}
use ckpt.Coord.Base.Ends.{Ends}
use ckpt.Coord.Connect.{coord_connect_with_process_on_restart}
use ckpt.Coord.Connect.Invariant.{IsValid}
use ckpt.Coord.Connect.Join.{advanced-IsValid, Fits-state, join-IsValid}

-- The ids that a restarted process brings along: they are its own, its parent's id is older, and
-- where the list already has the parent, it is the process that the kernel says is the parent.
pub record Brings (c : Coord) (msg : Msg) : Type 0 where
  pub virt : msg.virt_pid < 2147483647
  pub xnd : msg.xnd_pid < 4294967295
  pub older : msg.virt_ppid < msg.virt_pid
  pub other_virt : All (λ q. q.virt_pid ≢ msg.virt_pid) c.procs
  pub other_xnd : All (λ q. q.xnd_pid ≢ msg.xnd_pid) c.procs
  pub agrees : All (λ q. q.virt_pid ≡ msg.virt_ppid → q.real_pid ≡ msg.real_ppid) c.procs

All-both {ℓ κ ν} :
    {A : Type ℓ} (P : A → Type κ) (Q : A → Type ν) (xs : List A)
    → All P xs
    → All Q xs
    → All (λ x. P x × Q x) xs
All-both P Q [] hp hq = tt
All-both P Q (x ∷ xs) hp hq = ((hp.0, hq.0), All-both P Q xs hp.1 hq.1)

module _ (c : Coord) (msg : Msg) where
  abbrev next_virt : ℕ
  next_virt =
      if ge_signed msg.virt_pid c.next_virt_pid then next32 msg.virt_pid else c.next_virt_pid

  abbrev next_xnd : ℕ
  next_xnd = if leb c.next_xnd_pid msg.xnd_pid then next32 msg.xnd_pid else c.next_xnd_pid

  -- The counters never fall, and pass the ids of the process.
  next_virt_lem :
      c.next_virt_pid < 2147483648
      → msg.virt_pid < 2147483647
      → (c.next_virt_pid ≤ next_virt) × (msg.virt_pid < next_virt)
  next_virt_lem hc hm = ground arith

  next_xnd_lem : msg.xnd_pid < 4294967295 → (c.next_xnd_pid ≤ next_xnd) × (msg.xnd_pid < next_xnd)
  next_xnd_lem hm = ground arith

-- A process that restarts leaves a valid state where its connection returns, whether or not it can
-- be written to. Its two ids are those of no listed process and below the greatest of their types;
-- the virtual pid of its parent is less than its own; and each listed process with that virtual pid
-- has the real pid that the message gives for the parent. The next virtual pid is a positive
-- `pid_t`.
pub restart-IsValid :
    (w : World) (garbage : Msg) (raw : Proc) (fd : ℕ) (msg : Msg) (c : Coord)
    → IsValid c
    → c.next_virt_pid < 2147483648
    → Brings c msg
    → Ends (λ _. IsValid) (coord_connect_with_process_on_restart w garbage raw fd msg c)
unfolding coord_connect_with_process_on_restart
restart-IsValid w garbage raw fd msg c v room b =
    let (grows, virt) = next_virt_lem c msg room b.virt in
    let (grows', xnd) = next_xnd_lem c msg b.xnd in
    join-IsValid w garbage p _ _
      (advanced-IsValid (next_virt c msg) (next_xnd c msg) c grows grows' v)
      (Fits-state {p = p} restart_in_progress (record {
        virt = virt;
        xnd = xnd;
        parent = omega (arith, b.older);
        other =
            All-both (λ q. q.virt_pid ≢ msg.virt_pid) (λ q. q.xnd_pid ≢ msg.xnd_pid) c.procs
              b.other_virt b.other_xnd;
        agrees = (λ e. absurd (omega (arith, b.older)), b.agrees);
      }))
  where
    p : Proc
    p = record raw {
      fd = fd;
      oob_fd = minus_one;
      real_pid = msg.real_pid;
      virt_pid = msg.virt_pid;
      real_ppid = msg.real_ppid;
      virt_ppid = msg.virt_ppid;
      xnd_pid = msg.xnd_pid;
      xnd_ppid = msg.xnd_ppid;
      xnd_pgid = msg.xnd_pgid;
    }
