-- ===== src/Fd/Save.antt =====
-- `fd_table_save` of xnd/fd_table.c, with `file_save` and `dir_save`.
pub mod Laws
pub mod Loop
use Prim.Native.Nat.{bit_and, bit_or}
use ckpt.Prelude.{
  ℕ, zero, suc, ◌-◌, Bool, true, false, not, ◌&&◌, ◌||◌, Option, none, some, List, [], ◌∷◌, ◌==◌,
  if◌then◌else◌,
}
use ckpt.Fd.Base.{
  FdType, fd_null, fd_inherited, fd_file, fd_directory, FdState, null, saved, restored, FdSource,
  FdTable, put,
}

-- The constants of the system's fcntl.h.
pub record Constants : Type 0 where
  pub o_append : ℕ
  pub o_nonblock : ℕ
  pub o_trunc : ℕ
  pub o_excl : ℕ
  pub o_cloexec : ℕ
  pub fd_cloexec : ℕ

-- The answers of the system for each descriptor and each directory stream; `none` is an error.
pub record Answers : Type 0 where
  pub constants : Constants
  pub lseek_cur : ℕ → Option ℕ
  pub getfl : ℕ → Option ℕ
  pub getfd : ℕ → Option ℕ
  pub telldir : ℕ → Option ℕ

-- `x & ~m` at 32 bits, and the test `x & m`.
abbrev clear : ℕ → ℕ → ℕ
clear x m = bit_and x (4294967295 - m)

abbrev has : ℕ → ℕ → Bool
has x m = not (bit_and x m == 0)

-- The flag for closing on exec as fcntl has found it.
abbrev pub set_cloexec : Constants → ℕ → ℕ → ℕ
set_cloexec c ret flags =
    if has flags c.o_cloexec && not (has ret c.fd_cloexec)
    then clear flags c.o_cloexec
    else if has ret c.fd_cloexec && not (has flags c.o_cloexec)
    then bit_or flags c.o_cloexec
    else flags

-- What `off_t` holds after a failure: -1 at 64 bits.
abbrev pub failed_offset : ℕ
failed_offset = 18446744073709551615

-- The source as it is left, and whether the function returns 0.
abbrev pub file_flags : Constants → FdSource → Option ℕ → Option ℕ → FdSource × Bool
file_flags c s none d = (s, false)
file_flags c s (some fl) none =
    (record s { flags = bit_or s.flags (bit_and fl (bit_or c.o_append c.o_nonblock)) }, false)
file_flags c s (some fl) (some d) =
    let flags = bit_or s.flags (bit_and fl (bit_or c.o_append c.o_nonblock)) in
    (
      record s { flags = clear (clear (set_cloexec c d flags) c.o_trunc) c.o_excl; state = saved },
      true,
    )

abbrev pub file_seek : Answers → ℕ → FdSource → Option ℕ → FdSource × Bool
file_seek k fd s none = (record s { offset = failed_offset }, false)
file_seek k fd s (some offset) =
    file_flags k.constants (record s { offset = offset }) (k.getfl fd) (k.getfd fd)

unfoldable pub file_save : Answers → ℕ → FdSource → FdSource × Bool
file_save k fd s = file_seek k fd s (k.lseek_cur fd)

abbrev pub dir_flags : Constants → FdSource → Option ℕ → FdSource × Bool
dir_flags c s none = (s, false)
dir_flags c s (some d) = (record s { flags = set_cloexec c d s.flags; state = saved }, true)

abbrev pub dir_tell : Answers → ℕ → FdSource → Option ℕ → FdSource × Bool
dir_tell k fd s none = (s, false)
dir_tell k fd s (some tell) = dir_flags k.constants (record s { offset = tell }) (k.getfd fd)

unfoldable pub dir_save : Answers → ℕ → FdSource → FdSource × Bool
dir_save k fd s = dir_tell k fd s (k.telldir s.dirp)

-- `fd_ops[type].save`; the entries of the other two types are null.
unfoldable pub save_by : FdType → Answers → ℕ → FdSource → Option (FdSource × Bool)
save_by fd_file k fd s = some (file_save k fd s)
save_by fd_directory k fd s = some (dir_save k fd s)
save_by fd_null k fd s = none
save_by fd_inherited k fd s = none

abbrev pub is_inherited : FdType → Bool
is_inherited fd_inherited = true
is_inherited _ = false

abbrev pub is_saved : FdState → Bool
is_saved saved = true
is_saved _ = false

-- The result of a save is not looked at.
abbrev pub store_saved :
    (ℕ → Option FdSource) → ℕ → Option (FdSource × Bool) → Option (ℕ → Option FdSource)
store_saved heap a none = none
store_saved heap a (some (s, ok)) = some (put heap a (some s))

-- The source is not saved, or not again.
abbrev pub settled : FdSource → Bool
settled s = is_inherited s.type || is_saved s.state

abbrev pub save_source :
    Answers → ℕ → ℕ → (ℕ → Option FdSource) → Option FdSource → Option (ℕ → Option FdSource)
save_source k fd a heap none = none
save_source k fd a heap (some s) =
    if settled s then some heap else store_saved heap a (save_by s.type k fd s)

abbrev pub save_slot : Answers → ℕ → Option ℕ → (ℕ → Option FdSource) → Option (ℕ → Option FdSource)
save_slot k fd none heap = some heap
save_slot k fd (some a) heap = save_source k fd a heap (heap a)

abbrev pub and_next :
    Option (ℕ → Option FdSource)
    → ((ℕ → Option FdSource) → Option (ℕ → Option FdSource))
    → Option (ℕ → Option FdSource)
and_next none f = none
and_next (some heap) f = f heap

-- The loop from the descriptor `fd` on, with the slots that are left; `none` is a step that C leaves
-- undefined.
unfoldable pub save_from :
    Answers → ℕ → List (Option ℕ) → (ℕ → Option FdSource) → Option (ℕ → Option FdSource)
save_from k fd [] heap = some heap
save_from k fd (v ∷ vs) heap = and_next (save_slot k fd v heap) (save_from k (suc fd) vs)

unfoldable pub fd_table_save : Answers → FdTable → Option (ℕ → Option FdSource)
fd_table_save k t = save_from k 0 t.slots t.heap
