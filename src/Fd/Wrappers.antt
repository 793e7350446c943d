-- ===== src/Fd/Wrappers.antt =====
-- What the wrappers of xnd/wrappers/file_wrappers.c ask of the table. Each function is given the
-- arguments of its call and the answer of the system call that it wraps; `ok` and `raw` are the
-- answers of malloc.
use ckpt.Prelude.{
  ℕ, Bool, true, not, ◌&&◌, Option, none, some, List, [], ◌∷◌, ◌++◌, ◌==◌, if◌then◌else◌, minus_one,
}
use ckpt.Fd.Base.{FdSource, Call, opens, opens_dir, dups, closes}

-- `XND_SKIP_INTERPOSE()`, and whether the system call has succeeded.
abbrev pub if_tracked : (skip success : Bool) → List Call → List Call
if_tracked skip success cs = if skip then [] else if success then cs else []

abbrev succeeded : ℕ → Bool
succeeded retval = not (retval == minus_one)

abbrev pub openat_hook :
    (skip ok : Bool) (raw : FdSource) (retval : ℕ) (path : List ℕ) (flags mode : ℕ) → List Call
openat_hook skip ok raw retval path flags mode =
    if_tracked skip (succeeded retval) (opens ok raw retval path flags mode ∷ [])

-- `creates` is `flags & O_CREAT`; without it there is no third argument.
abbrev pub open_hook :
    (skip ok : Bool) (raw : FdSource) (retval : ℕ) (path : List ℕ) (flags : ℕ) (creates : Bool)
    (mode : ℕ)
    → List Call
open_hook skip ok raw retval path flags creates mode =
    openat_hook skip ok raw retval path flags (if creates then mode else 0)

-- `flags` is O_CREAT | O_TRUNC | O_WRONLY.
abbrev pub creat_hook :
    (skip ok : Bool) (raw : FdSource) (retval : ℕ) (path : List ℕ) (flags mode : ℕ) → List Call
creat_hook skip ok raw retval path flags mode = openat_hook skip ok raw retval path flags mode

abbrev pub close_hook : (skip : Bool) (retval fd : ℕ) → List Call
close_hook skip retval fd = if_tracked skip (succeeded retval) (closes fd ∷ [])

abbrev pub dup_hook : (skip : Bool) (newfd oldfd : ℕ) → List Call
dup_hook skip newfd oldfd = if_tracked skip (succeeded newfd) (dups oldfd newfd ∷ [])

-- The result is asserted to be `newfd`.
abbrev pub dup2_hook : (skip : Bool) (retval oldfd newfd : ℕ) → Option (List Call)
dup2_hook skip retval oldfd newfd =
    if not skip && (succeeded retval && not (retval == newfd))
    then none
    else some (if_tracked skip (succeeded retval) (dups oldfd newfd ∷ []))

-- `dupfd` tells whether the command is F_DUPFD or F_DUPFD_CLOEXEC.
abbrev pub fcntl_hook : (skip dupfd : Bool) (ret fd : ℕ) → List Call
fcntl_hook skip dupfd ret fd = if_tracked skip (succeeded ret && dupfd) (dups fd ret ∷ [])

-- 0666
abbrev stream_mode : ℕ
stream_mode = 438

-- A stream is its descriptor; `flags` is `mode_to_oflag(mode)`.
abbrev pub fopen_hook :
    (skip ok : Bool) (raw : FdSource) (stream : Option ℕ) (path : List ℕ) (flags : ℕ) → List Call
fopen_hook skip ok raw none path flags = []
fopen_hook skip ok raw (some fd) path flags =
    if_tracked skip true (opens ok raw fd path flags stream_mode ∷ [])

abbrev pub fclose_hook : (skip success : Bool) (fd : ℕ) → List Call
fclose_hook skip success fd = if_tracked skip success (closes fd ∷ [])

-- `path` is the one that F_GETPATH has found where the argument is null.
abbrev pub freopen_hook :
    (skip ok : Bool) (raw : FdSource) (newfd : Option ℕ) (oldfd : ℕ) (path : List ℕ) (flags : ℕ)
    → List Call
freopen_hook skip ok raw none oldfd path flags = []
freopen_hook skip ok raw (some newfd) oldfd path flags =
    let old = if newfd == oldfd then [] else closes oldfd ∷ [] in
    if_tracked skip true (old ++ (closes newfd ∷ opens ok raw newfd path flags stream_mode ∷ []))

-- A directory stream is its address and its descriptor; `flags` is O_RDONLY | O_DIRECTORY.
abbrev pub opendir_hook :
    (skip ok : Bool) (raw : FdSource) (dirp : Option (ℕ × ℕ)) (path : List ℕ) (flags : ℕ)
    → List Call
opendir_hook skip ok raw none path flags = []
opendir_hook skip ok raw (some (dirp, fd)) path flags =
    if_tracked skip true (opens_dir ok raw fd path flags dirp ∷ [])

-- `path` is what F_GETPATH has found.
abbrev pub fdopendir_hook :
    (skip ok : Bool) (raw : FdSource) (dirp : Option (ℕ × ℕ)) (path : List ℕ) (flags : ℕ)
    → List Call
fdopendir_hook skip ok raw dirp path flags = opendir_hook skip ok raw dirp path flags

abbrev pub closedir_hook : (skip success : Bool) (fd : ℕ) → List Call
closedir_hook skip success fd = if_tracked skip success (closes fd ∷ [])
