-- ===== src/Fd/Tests.antt =====
-- A table with a file that two descriptors share, and the theorems at it.
use ckpt.Prelude.{ℕ, ◌≡◌, refl, Bool, true, false, none, some, List, [], ◌∷◌, arith}
use ckpt.Fd.Base.{
  FdSource, FdTable, fd_null, fd_file, null, slot, blank, Call, opens, opens_dir, dups, closes,
  calls, and_calls, fd_table_init,
}
use ckpt.Fd.Laws.{Sound}
use ckpt.Fd.History.{history-Sound}
use ckpt.Fd.Save.{Answers, fd_table_save}
use ckpt.Fd.Save.Laws.{Heap, Answering, IsLive}
use ckpt.Fd.Save.Loop.{second_save_stale}

abbrev raw : FdSource
raw = record {
  type = fd_null;
  state = null;
  path = [];
  flags = 0;
  mode = 0;
  offset = 0;
  ref = 0;
  root = 0;
  dirp = 0;
}

abbrev shared_history : List Call
shared_history =
    opens true raw 3 (47 ∷ 97 ∷ []) 2 0 ∷ dups 3 4 ∷ closes 3 ∷ opens_dir true raw 3 [] 0 9 ∷ []

abbrev plenty : ℕ → Bool
plenty n = true

history-Sound_example :
    Sound 5 (and_calls (fd_table_init plenty (λ n. raw) blank) (calls shared_history))
history-Sound_example =
    history-Sound plenty (λ n. raw) shared_history (omega arith)
      (omega arith, ((omega arith, omega arith), (omega arith, (omega arith, tt))))

abbrev file : FdSource
file = record raw { type = fd_file; ref = 2 }

abbrev shared : FdTable
shared = record {
  heap = λ a. some file;
  next = 1;
  slots = none ∷ some 0 ∷ some 0 ∷ [];
  locked = false;
  init = true;
}

shared-IsLive : IsLive shared.slots shared.heap
shared-IsLive i a e = (file, refl, refl)

-- Offset 40 in every file, or another.
abbrev answers : ℕ → Answers
answers offset = record {
  constants = record {
    o_append = 8;
    o_nonblock = 4;
    o_trunc = 1024;
    o_excl = 2048;
    o_cloexec = 16777216;
    fd_cloexec = 1;
  };
  lseek_cur = λ fd. some offset;
  getfl = λ fd. some 8;
  getfd = λ fd. some 0;
  telldir = λ dirp. some 0;
}

answers-Answering : (offset : ℕ) → Answering (answers offset)
answers-Answering offset = record {
  seeks = λ fd. (offset, refl);
  flags = λ fd. (8, refl);
  descriptor = λ fd. (0, refl);
  tells = λ dirp. (0, refl);
}

second_save_stale_example :
    (heap1 : Heap) × (heap2 : Heap) × (fd_table_save (answers 40) shared ≡ some heap1)
    × (fd_table_save (answers 90) (record shared { heap = heap1 }) ≡ some heap2)
    × ((fd a : ℕ) → slot shared.slots fd ≡ some a → heap2 a ≡ heap1 a)
second_save_stale_example =
    second_save_stale (answers 40) (answers 90) shared (answers-Answering 40) (answers-Answering 90)
      shared-IsLive
