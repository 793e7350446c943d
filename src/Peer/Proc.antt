-- ===== src/Peer/Proc.antt =====
-- The wrappers of the `proc_*` calls in xnd/pid/pid_wrappers.c. What the kernel does is an argument
-- of each, its result with the buffer that it leaves; a buffer is `none` where it is NULL.
pub mod Laws
pub mod Lists
use ckpt.Prelude.{
  ℕ, zero, suc, ◌/◌, Bool, true, false, not, ◌&&◌, Option, none, some, List, [], ◌∷◌, ◌==◌,
  if◌then◌else◌, leb, ltb, minus_one,
}
use ckpt.Peer.Base.{
  Peer, done, P, pure, and_then, ◌>>=◌, ◌>>◌, set_errno, unsafe_enter, unsafe_exit,
}
use ckpt.Peer.Translate.{Link, virtual_to_real_pid, real_to_virtual_pid}

abbrev pub esrch : ℕ
esrch = 3

-- `ret > 0`, of an `int`.
abbrev pub is_positive : ℕ → Bool
is_positive ret = not (ret == 0) && ltb ret 2147483648

-- What each wrapper of a call on one pid does with it: `call` is the kernel's on the real pid,
-- `after` what is done to its result, and `fail` the result for a pid that has no real one.
unfoldable pub on_real_pid : {A : Type 0} → (call : ℕ → A) (after : A → P A) (fail : A) → ℕ → P A
on_real_pid call after fail real_pid =
    if real_pid == minus_one
    then (do unsafe_exit; set_errno esrch; pure fail)
    else (do ret ← after (call real_pid); unsafe_exit; pure ret)

unfoldable pub with_real_pid :
    {A : Type 0} → Link → (call : ℕ → A) (after : A → P A) (fail : A) → ℕ → P A
with_real_pid link call after fail pid p =
    let hooked = do
      unsafe_enter
      real_pid ← virtual_to_real_pid link pid
      on_real_pid call after fail real_pid
    in if p.skip then done (call pid) p else hooked p

abbrev pub Buffer : Type 0
Buffer = Option (List ℕ)

abbrev pub Result : Type 0
Result = ℕ × Buffer

module _ (link : Link) where
  unfoldable pub proc_pidfdinfo_hook :
      (ℕ → ℕ → ℕ → Buffer → ℕ → Result)
      → (pid fd flavor : ℕ) (buf : Buffer) (bufsize : ℕ) → P Result
  proc_pidfdinfo_hook proc_pidfdinfo pid fd flavor buf bufsize =
      with_real_pid link (λ real_pid. proc_pidfdinfo real_pid fd flavor buf bufsize) pure (0, buf)
        pid

  unfoldable pub proc_pidfileportinfo_hook :
      (ℕ → ℕ → ℕ → Buffer → ℕ → Result)
      → (pid fileport flavor : ℕ) (buf : Buffer) (bufsize : ℕ) → P Result
  proc_pidfileportinfo_hook proc_pidfileportinfo pid fileport flavor buf bufsize =
      with_real_pid link (λ real_pid. proc_pidfileportinfo real_pid fileport flavor buf bufsize)
        pure (0, buf) pid

  unfoldable pub proc_name_hook :
      (ℕ → Buffer → ℕ → Result) → (pid : ℕ) (buf : Buffer) (bufsize : ℕ) → P Result
  proc_name_hook proc_name pid buf bufsize =
      with_real_pid link (λ real_pid. proc_name real_pid buf bufsize) pure (0, buf) pid

  unfoldable pub proc_regionfilename_hook :
      (ℕ → ℕ → Buffer → ℕ → Result) → (pid addr : ℕ) (buf : Buffer) (bufsize : ℕ) → P Result
  proc_regionfilename_hook proc_regionfilename pid addr buf bufsize =
      with_real_pid link (λ real_pid. proc_regionfilename real_pid addr buf bufsize) pure (0, buf)
        pid

  unfoldable pub proc_pidpath_hook :
      (ℕ → Buffer → ℕ → Result) → (pid : ℕ) (buf : Buffer) (bufsize : ℕ) → P Result
  proc_pidpath_hook proc_pidpath pid buf bufsize =
      with_real_pid link (λ real_pid. proc_pidpath real_pid buf bufsize) pure (0, buf) pid

  unfoldable pub proc_pid_rusage_hook :
      (ℕ → ℕ → Buffer → Result) → (pid flavor : ℕ) (buf : Buffer) → P Result
  proc_pid_rusage_hook proc_pid_rusage pid flavor buf =
      with_real_pid link (λ real_pid. proc_pid_rusage real_pid flavor buf) pure (minus_one, buf) pid

  unfoldable pub proc_track_dirty_hook : (ℕ → ℕ → ℕ) → (pid flags : ℕ) → P ℕ
  proc_track_dirty_hook proc_track_dirty pid flags =
      with_real_pid link (λ real_pid. proc_track_dirty real_pid flags) pure minus_one pid

  unfoldable pub proc_set_dirty_hook : (ℕ → Bool → ℕ) → (pid : ℕ) (dirty : Bool) → P ℕ
  proc_set_dirty_hook proc_set_dirty pid dirty =
      with_real_pid link (λ real_pid. proc_set_dirty real_pid dirty) pure minus_one pid

  unfoldable pub proc_get_dirty_hook : (ℕ → Buffer → Result) → (pid : ℕ) (flags : Buffer) → P Result
  proc_get_dirty_hook proc_get_dirty pid flags =
      with_real_pid link (λ real_pid. proc_get_dirty real_pid flags) pure (minus_one, flags) pid

  unfoldable pub proc_clear_dirty_hook : (ℕ → ℕ → ℕ) → (pid flags : ℕ) → P ℕ
  proc_clear_dirty_hook proc_clear_dirty pid flags =
      with_real_pid link (λ real_pid. proc_clear_dirty real_pid flags) pure minus_one pid

  unfoldable pub proc_terminate_hook : (ℕ → Buffer → Result) → (pid : ℕ) (sig : Buffer) → P Result
  proc_terminate_hook proc_terminate pid sig =
      with_real_pid link (λ real_pid. proc_terminate real_pid sig) pure (minus_one, sig) pid

  unfoldable pub proc_udata_info_hook :
      (ℕ → ℕ → Buffer → ℕ → Result) → (pid flavor : ℕ) (buf : Buffer) (bufsize : ℕ) → P Result
  proc_udata_info_hook proc_udata_info pid flavor buf bufsize =
      with_real_pid link (λ real_pid. proc_udata_info real_pid flavor buf bufsize) pure (0, buf) pid

-- One pid of a list: 0 and a pid with no virtual one stay.
unfoldable pub virtualize : Link → ℕ → P ℕ
virtualize link real p =
    and_then (real_to_virtual_pid link real p)
      (λ virt. pure (if virt == minus_one then real else virt))

unfoldable pub list_entry : Link → ℕ → P ℕ
list_entry link pid p = if pid == 0 then done pid p else virtualize link pid p

-- The first `count` entries. Past the end of the buffer there is nothing to read.
unfoldable pub pid_list_real_to_virt : Link → List ℕ → (count : ℕ) → P (List ℕ)
pid_list_real_to_virt link list zero = pure list
pid_list_real_to_virt link [] (suc count) = pure []
pid_list_real_to_virt link (pid ∷ list) (suc count) = do
  pid' ← list_entry link pid
  rest ← pid_list_real_to_virt link list count
  pure (pid' ∷ rest)

-- The pids that the kernel wrote, of four bytes each.
unfoldable pub virtualize_list : Link → Result → P Result
virtualize_list link (ret, none) = pure (ret, none)
virtualize_list link (ret, some list) =
    if is_positive ret
    then (do list' ← pid_list_real_to_virt link list (ret / 4); pure (ret, some list'))
    else pure (ret, some list)

-- `typeinfo` is a pid for the first two.
pub data ListType : Type 0 where
  proc_pgrp_only proc_ppid_only : ListType
  other_type : ℕ → ListType

abbrev pub takes_pid : ListType → Bool
takes_pid proc_pgrp_only = true
takes_pid proc_ppid_only = true
takes_pid (other_type n) = false

module _ (link : Link) where
  unfoldable pub proc_listpgrppids_hook :
      (ℕ → Buffer → ℕ → Result) → (pgrp : ℕ) (buf : Buffer) (bufsize : ℕ) → P Result
  proc_listpgrppids_hook proc_listpgrppids pgrp buf bufsize =
      with_real_pid link (λ real_pgrp. proc_listpgrppids real_pgrp buf bufsize)
        (virtualize_list link) (0, buf) pgrp

  unfoldable pub proc_listchildpids_hook :
      (ℕ → Buffer → ℕ → Result) → (ppid : ℕ) (buf : Buffer) (bufsize : ℕ) → P Result
  proc_listchildpids_hook proc_listchildpids ppid buf bufsize =
      with_real_pid link (λ real_ppid. proc_listchildpids real_ppid buf bufsize)
        (virtualize_list link) (0, buf) ppid

  unfoldable pub proc_listallpids_hook :
      (Buffer → ℕ → Result) → (buf : Buffer) (bufsize : ℕ) → P Result
  proc_listallpids_hook proc_listallpids buf bufsize p =
      let hooked = do
        unsafe_enter
        ret ← virtualize_list link (proc_listallpids buf bufsize)
        unsafe_exit
        pure ret
      in if p.skip then done (proc_listallpids buf bufsize) p else hooked p

  unfoldable pub proc_listpids_hook :
      (ListType → ℕ → Buffer → ℕ → Result)
      → (type : ListType) (typeinfo : ℕ) (buf : Buffer) (bufsize : ℕ) → P Result
  proc_listpids_hook proc_listpids type typeinfo buf bufsize =
      if takes_pid type
      then with_real_pid link (λ real_typeinfo. proc_listpids type real_typeinfo buf bufsize)
          (virtualize_list link) (0, buf) typeinfo
      else proc_listallpids_hook (proc_listpids type typeinfo) buf bufsize
