-- ===== src/Fd/Restore.antt =====
-- `fd_table_restore` of xnd/fd_table.c, with `file_restore` and `dir_restore`, over the calls of the
-- system on the descriptors of the process.
pub mod Laws
pub mod Reopen
pub mod Inherit
pub mod Reopened
pub mod Close
pub mod Whole
pub mod Saved
use ckpt.Prelude.{
  ℕ, zero, suc, Bool, true, false, not, ◌&&◌, Option, none, some, List, [], ◌∷◌, ◌==◌,
  if◌then◌else◌,
}
use ckpt.Fd.Base.{
  FdType, fd_null, fd_inherited, fd_file, fd_directory, FdState, null, saved, restored, FdSource,
  FdTable, put, slot,
}
use ckpt.Fd.Save.{is_inherited}

-- An open file of the system, which several descriptors may share.
pub record Opened : Type 0 where
  pub path : List ℕ
  pub flags : ℕ
  pub offset : ℕ

-- The calls of the system, with `none` for an error, and what can be told of its state: the number
-- of the open file that a descriptor leads to, and the open file with a number; the descriptor of a
-- directory stream, and the position that a stream keeps, in the memory of the process.
pub record Kernel : Type 1 where
  pub State : Type 0
  pub open_path : List ℕ → ℕ → ℕ → State → Option (ℕ × State)
  pub dup2 : ℕ → ℕ → State → Option (ℕ × State)
  pub close : ℕ → State → State
  pub lseek_set : ℕ → ℕ → State → Option (ℕ × State)
  pub seekdir : ℕ → ℕ → State → State
  pub description : State → ℕ → Option ℕ
  pub file : State → ℕ → Opened
  pub dirfd : ℕ → ℕ
  pub position : State → ℕ → ℕ

module _ (K : Kernel) where
  -- How a function ends: it returns, it aborts, or it does what C leaves undefined.
  pub data End : Type 0 where
    returned : (ℕ → Option FdSource) → K.State → End
    aborted undefined : End

  abbrev pub moved : ℕ → ℕ → Option (ℕ × K.State) → Option K.State
  moved ret fd none = none
  moved ret fd (some (n, os)) = if n == fd then some (K.close ret os) else none

  abbrev pub placed : ℕ → Option (ℕ × K.State) → Option K.State
  placed fd none = none
  placed fd (some (ret, os)) = if ret == fd then some os else moved ret fd (K.dup2 ret fd os)

  -- The path is opened, at the descriptor `fd`.
  unfoldable pub reopen : ℕ → FdSource → K.State → Option K.State
  reopen fd s os = placed fd (K.open_path s.path s.flags s.mode os)

  abbrev pub restored_at : ℕ → FdSource → FdSource
  restored_at fd s = record s { root = fd; state = restored }

  abbrev pub at_offset : ℕ → FdSource → Option (ℕ × K.State) → Option (FdSource × K.State)
  at_offset fd s none = none
  at_offset fd s (some (o, os)) = if o == s.offset then some (restored_at fd s, os) else none

  abbrev pub sought : ℕ → FdSource → Option K.State → Option (FdSource × K.State)
  sought fd s none = none
  sought fd s (some os) = at_offset fd s (K.lseek_set fd s.offset os)

  -- `none` is the result -1.
  unfoldable pub file_restore : ℕ → FdSource → K.State → Option (FdSource × K.State)
  file_restore fd s os = sought fd s (reopen fd s os)

  abbrev pub directory_sought : ℕ → FdSource → Option K.State → Option (FdSource × K.State)
  directory_sought fd s none = none
  directory_sought fd s (some os) = some (restored_at fd s, K.seekdir s.dirp s.offset os)

  unfoldable pub dir_restore : ℕ → FdSource → K.State → Option (FdSource × K.State)
  dir_restore fd s os = directory_sought fd s (reopen fd s os)

  abbrev pub store_restored : (ℕ → Option FdSource) → ℕ → Option (FdSource × K.State) → End
  store_restored heap a none = aborted
  store_restored heap a (some (s, os)) = returned (put heap a (some s)) os

  -- `fd_ops[type].restore`; the entries of the other two types are null.
  unfoldable pub restore_by : FdType → ℕ → ℕ → FdSource → (ℕ → Option FdSource) → K.State → End
  restore_by fd_file fd a s heap os = store_restored heap a (file_restore fd s os)
  restore_by fd_directory fd a s heap os = store_restored heap a (dir_restore fd s os)
  restore_by fd_null fd a s heap os = undefined
  restore_by fd_inherited fd a s heap os = undefined

  abbrev pub is_restored : FdState → Bool
  is_restored restored = true
  is_restored _ = false

  abbrev pub shared : ℕ → (ℕ → Option FdSource) → Option (ℕ × K.State) → End
  shared fd heap none = aborted
  shared fd heap (some (n, os)) = if n == fd then returned heap os else aborted

  -- The first loop, on a slot that holds the source `s`.
  abbrev pub inherit_source : ℕ → FdSource → (ℕ → Option FdSource) → K.State → End
  inherit_source fd s heap os =
      if is_inherited s.type && not (fd == s.root)
      then shared fd heap (K.dup2 s.root fd os)
      else returned heap os

  -- The second loop, on a slot that holds the source `s` at `a`.
  abbrev pub restore_source : ℕ → ℕ → FdSource → (ℕ → Option FdSource) → K.State → End
  restore_source fd a s heap os =
      if is_inherited s.type
      then returned heap os
      else if is_restored s.state
      then shared fd heap (K.dup2 s.root fd os)
      else restore_by s.type fd a s heap os

  abbrev pub lead : (FdSource → End) → Option FdSource → End
  lead f none = undefined
  lead f (some s) = f s

  abbrev pub inherit_slot : ℕ → Option ℕ → (ℕ → Option FdSource) → K.State → End
  inherit_slot fd none heap os = returned heap os
  inherit_slot fd (some a) heap os = lead (λ s. inherit_source fd s heap os) (heap a)

  abbrev pub restore_slot : ℕ → Option ℕ → (ℕ → Option FdSource) → K.State → End
  restore_slot fd none heap os = returned heap os
  restore_slot fd (some a) heap os = lead (λ s. restore_source fd a s heap os) (heap a)

  abbrev pub and_then : End → ((ℕ → Option FdSource) → K.State → End) → End
  and_then (returned heap os) f = f heap os
  and_then aborted f = aborted
  and_then undefined f = undefined

  -- The first two loops from the descriptor `fd` on, with the slots that are left.
  unfoldable pub inherit_from : ℕ → List (Option ℕ) → (ℕ → Option FdSource) → K.State → End
  inherit_from fd [] heap os = returned heap os
  inherit_from fd (v ∷ vs) heap os = and_then (inherit_slot fd v heap os) (inherit_from (suc fd) vs)

  unfoldable pub restore_from : ℕ → List (Option ℕ) → (ℕ → Option FdSource) → K.State → End
  restore_from fd [] heap os = returned heap os
  restore_from fd (v ∷ vs) heap os = and_then (restore_slot fd v heap os) (restore_from (suc fd) vs)

  abbrev pub close_null : ℕ → Option ℕ → K.State → K.State
  close_null fd none os = K.close fd os
  close_null fd (some a) os = os

  -- The third loop, of three rounds.
  unfoldable pub close_unused : List (Option ℕ) → K.State → K.State
  close_unused slots os =
      close_null 2 (slot slots 2) (close_null 1 (slot slots 1) (close_null 0 (slot slots 0) os))

  unfoldable pub fd_table_restore : FdTable → K.State → End
  fd_table_restore t os = and_then (inherit_from 0 t.slots t.heap os) (λ heap1 os1.
      and_then (restore_from 0 t.slots heap1 os1)
        (λ heap2 os2. returned heap2 (close_unused t.slots os2)))
