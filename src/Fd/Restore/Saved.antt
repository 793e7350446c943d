-- ===== src/Fd/Restore/Saved.antt =====
-- A save of the open files and their restore together: `fd_table_save` and `fd_table_restore` of
-- xnd/fd_table.c.
use ckpt.Prelude.{ℕ, ◌≤◌, ◌≡◌, Option, some, List}
use ckpt.Fd.Base.{FdSource, fd_directory, slot}
use ckpt.Fd.Save.Laws.{Heap}
use ckpt.Fd.Restore.{Kernel}
use ckpt.Fd.Restore.Laws.{Holds}
use ckpt.Fd.Restore.Inherit.{IsInherited}

-- The roots of inherited descriptors are open, and none of them is given another inherited one; and
-- the descriptor of a directory stream is the first that holds its source.
pub record Rooted (K : Kernel) (slots : List (Option ℕ)) (heap : Heap) (os : K.State) : Type 0 where
  pub open_root :
      (x a : ℕ) (s : FdSource)
      → Holds slots heap x a s
      → IsInherited s
      → (d : ℕ) × (K.description os s.root ≡ some d)
  pub straight :
      (x y a b : ℕ) (s s' : FdSource)
      → Holds slots heap x a s
      → IsInherited s
      → y ≡ s.root
      → Holds slots heap y b s'
      → IsInherited s'
      → s'.root ≡ y
  pub streams :
      (x a : ℕ) (s : FdSource)
      → Holds slots heap x a s
      → s.type ≡ fd_directory
      → (slot slots (K.dirfd s.dirp) ≡ some a)
        × ((y : ℕ) → slot slots y ≡ some a → K.dirfd s.dirp ≤ y)
