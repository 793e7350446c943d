-- ===== src/Fd/RestoreTests.antt =====
-- A table with an inherited descriptor, a file that two descriptors share and a directory, restored
-- on the sample system, and two inherited descriptors that were swapped.
use ckpt.Prelude.{ℕ, ◌≡◌, refl, Bool, true, false, Option, none, some, List, [], ◌∷◌, zero, suc}
use ckpt.Fd.Base.{FdSource, FdType, FdTable, fd_inherited, fd_file, fd_directory, null}
use ckpt.Fd.Save.{Answers}
use ckpt.Fd.Restore.{
  End, returned, inherit_from, restore_from, restore_by, file_restore, reopen, dir_restore,
  close_unused, fd_table_restore,
}
use ckpt.Fd.SampleKernel.{Files, sample_kernel}

abbrev terminal : FdSource
terminal = record {
  type = fd_inherited;
  state = null;
  path = [];
  flags = 0;
  mode = 0;
  offset = 0;
  ref = 1;
  root = 0;
  dirp = 0;
}

abbrev notes : FdSource
notes = record terminal { type = fd_file; path = 47 ∷ 97 ∷ []; offset = 40; ref = 2 }

abbrev folder : FdSource
folder = record terminal { type = fd_directory; path = 47 ∷ []; dirp = 4 }

abbrev source_at : ℕ → FdSource
source_at zero = terminal
source_at (suc zero) = notes
source_at (suc (suc a)) = folder

abbrev table : FdTable
table = record {
  heap = λ a. some (source_at a);
  next = 3;
  slots = some 0 ∷ none ∷ some 1 ∷ some 1 ∷ some 2 ∷ [];
  locked = false;
  init = true;
}

abbrev started : Files
started = record {
  table = some 0 ∷ some 1 ∷ some 2 ∷ [];
  file = λ e. record { path = []; flags = 0; offset = 0 };
  positions = λ d. 0;
}

abbrev is_folder : FdType → Bool
is_folder fd_directory = true
is_folder _ = false

-- The file stands at 56, the directory at 7.
abbrev answers : Answers
answers = record {
  constants = record {
    o_append = 8;
    o_nonblock = 4;
    o_trunc = 1024;
    o_excl = 2048;
    o_cloexec = 16777216;
    fd_cloexec = 1;
  };
  lseek_cur = λ fd. some 56;
  getfl = λ fd. some 8;
  getfd = λ fd. some 0;
  telldir = λ dirp. some 7;
}

abbrev leads_of : End sample_kernel → List (Option ℕ)
leads_of (returned heap os) = os.table
leads_of _ = []

restored_table :
    leads_of (fd_table_restore sample_kernel table started)
    ≡ some 0 ∷ none ∷ some 3 ∷ some 3 ∷ some 4 ∷ []
unfolding fd_table_restore inherit_from restore_from restore_by file_restore reopen dir_restore
    close_unused
restored_table = refl

abbrev swapped_at : ℕ → FdSource
swapped_at zero = terminal
swapped_at (suc a) = record terminal { root = 1 }

-- The descriptors 0 and 1 changed places; after the restore both lead where 1 led.
swapped :
    leads_of (
      fd_table_restore sample_kernel
        (record table { heap = λ a. some (swapped_at a); slots = some 1 ∷ some 0 ∷ some 2 ∷ [] })
        started)
    ≡ some 1 ∷ some 1 ∷ some 1 ∷ []
unfolding fd_table_restore inherit_from restore_from close_unused
swapped = refl
