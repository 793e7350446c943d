-- ===== src/Fd/Base.antt =====
-- The sources of xnd/fd_table.h on the heap, the slots of the table, and the functions of
-- xnd/fd_table.c that the wrappers of xnd/wrappers/file_wrappers.c call.
use ckpt.Prelude.{
  ℕ, zero, suc, ◌+◌, ◌%◌, Bool, true, false, Option, none, some, List, [], ◌∷◌, leb, ◌==◌, set,
  if◌then◌else◌,
}

pub data FdType : Type 0 where
  fd_null fd_inherited fd_file fd_directory : FdType

pub data FdState : Type 0 where
  null saved restored : FdState

pub record FdSource : Type 0 where
  pub type : FdType
  pub state : FdState
  pub path : List ℕ
  pub flags : ℕ
  pub mode : ℕ
  pub offset : ℕ
  pub ref : ℕ
  pub root : ℕ
  pub dirp : ℕ

-- `heap` has what malloc has handed out and free has not taken back; `next` and what is above it
-- were never handed out. A slot holds the address of its source.
pub record FdTable : Type 0 where
  pub heap : ℕ → Option FdSource
  pub next : ℕ
  pub slots : List (Option ℕ)
  pub locked : Bool
  pub init : Bool

abbrev pub max_files : ℕ
max_files = 512

abbrev pub slot : List (Option ℕ) → ℕ → Option ℕ
slot [] fd = none
slot (v ∷ vs) zero = v
slot (v ∷ vs) (suc fd) = slot vs fd

abbrev pub put : (ℕ → Option FdSource) → ℕ → Option FdSource → ℕ → Option FdSource
put heap a v = λ b. if a == b then v else heap b

-- How a function ends: it returns, it waits for the lock, it aborts since malloc has failed, or it
-- does what C leaves undefined: it leaves the array, follows a freed pointer or overflows an int.
pub data End : Type 0 where
  returns : FdTable → End
  waits aborts undefined : End

abbrev pub unlock : End → End
unlock (returns t) = returns (record t { locked = false })
unlock e = e

-- The part of a function from the lock to the unlock, for the descriptor `fd`.
unfoldable pub with_lock : ℕ → (FdTable → End) → FdTable → End
with_lock fd f t =
    if t.init
    then (if t.locked
        then waits
        else if leb max_files fd
        then undefined
        else unlock (f (record t { locked = true })))
    else returns t

-- `malloc` into the slot `fd`, filled in.
abbrev pub alloc : ℕ → FdSource → FdTable → FdTable
alloc fd s t = record t {
  heap = put t.heap t.next (some s);
  next = suc t.next;
  slots = set t.slots fd (some t.next);
}

abbrev pub new_file : FdSource → List ℕ → ℕ → ℕ → FdSource
new_file raw path flags mode = record raw {
  type = fd_file;
  ref = 1;
  mode = mode;
  flags = flags;
  state = null;
  path = path;
}

-- `ok` tells whether malloc succeeds, and `raw` is the memory it returns.
unfoldable pub fd_table_open : (ok : Bool) (raw : FdSource) → ℕ → List ℕ → ℕ → ℕ → FdTable → End
fd_table_open ok raw fd path flags mode =
    with_lock fd (λ t. if ok then returns (alloc fd (new_file raw path flags mode) t) else aborts)

abbrev pub new_directory : FdSource → List ℕ → ℕ → FdSource
new_directory raw path flags = record raw {
  ref = 1;
  mode = 0;
  state = null;
  flags = flags;
  path = path;
}

-- Every access to a source goes by here: `k` is told what the pointer `a` leads to.
abbrev pub lead : Option FdSource → (FdSource → End) → End
lead none k = undefined
lead (some s) k = k s

abbrev pub follow : ℕ → (FdSource → End) → FdTable → End
follow a k t = lead (t.heap a) k

abbrev pub as_directory : ℕ → Option ℕ → FdTable → End
as_directory dirp none t = undefined
as_directory dirp (some a) t =
    follow a
      (λ s.
        returns
          (record t { heap = put t.heap a (some (record s { type = fd_directory; dirp = dirp })) }))
      t

-- The source is made if there is none.
abbrev pub ensure : (ok : Bool) → FdSource → ℕ → Option ℕ → FdTable → Option FdTable
ensure ok s fd (some a) t = some t
ensure true s fd none t = some (alloc fd s t)
ensure false s fd none t = none

abbrev pub open_directory : ℕ → ℕ → Option FdTable → End
open_directory dirp fd none = aborts
open_directory dirp fd (some t) = as_directory dirp (slot t.slots fd) t

-- `fd` is what `dirfd` returns, and `flags` is O_RDONLY | O_DIRECTORY.
unfoldable pub fd_table_opendir : (ok : Bool) (raw : FdSource) → ℕ → List ℕ → ℕ → ℕ → FdTable → End
fd_table_opendir ok raw fd path flags dirp =
    with_lock fd (λ t.
      open_directory dirp fd (ensure ok (new_directory raw path flags) fd (slot t.slots fd) t))

abbrev pub is_null : FdType → Bool
is_null fd_null = true
is_null _ = false

-- `table[newfd]->ref++` on an int.
abbrev pub share : ℕ → ℕ → FdTable → FdSource → End
share new a t s =
    if is_null s.type
    then returns t
    else if leb max_files new
    then undefined
    else if leb 2147483647 s.ref
    then undefined
    else returns (record t {
      heap = put t.heap a (some (record s { ref = s.ref + 1 }));
      slots = set t.slots new (some a);
    })

abbrev pub dup_slot : ℕ → Option ℕ → FdTable → End
dup_slot new none t = returns t
dup_slot new (some a) t = follow a (share new a t) t

unfoldable pub fd_table_dup : ℕ → ℕ → FdTable → End
fd_table_dup old new = with_lock old (λ t. dup_slot new (slot t.slots old) t)

-- `ref--`, and `free` at 0.
abbrev pub dropped : FdSource → Option FdSource
dropped s =
    let ref = (s.ref + 4294967295) % 4294967296 in
    if ref == 0 then none else some (record s { ref = ref })

abbrev pub release : ℕ → ℕ → FdTable → FdSource → End
release fd a t s =
    if is_null s.type
    then returns t
    else returns (record t { heap = put t.heap a (dropped s); slots = set t.slots fd none })

abbrev pub close_slot : ℕ → Option ℕ → FdTable → End
close_slot fd none t = returns t
close_slot fd (some a) t = follow a (release fd a t) t

unfoldable pub fd_table_close : ℕ → FdTable → End
fd_table_close fd = with_lock fd (λ t. close_slot fd (slot t.slots fd) t)

-- What the wrappers ask of the table, with what the system call has answered.
pub data Call : Type 0 where
  opens : (ok : Bool) (raw : FdSource) (fd : ℕ) (path : List ℕ) (flags mode : ℕ) → Call
  opens_dir : (ok : Bool) (raw : FdSource) (fd : ℕ) (path : List ℕ) (flags dirp : ℕ) → Call
  dups : (old new : ℕ) → Call
  closes : (fd : ℕ) → Call

unfoldable pub call : Call → FdTable → End
call (opens ok raw fd path flags mode) = fd_table_open ok raw fd path flags mode
call (opens_dir ok raw fd path flags dirp) = fd_table_opendir ok raw fd path flags dirp
call (dups old new) = fd_table_dup old new
call (closes fd) = fd_table_close fd

abbrev pub and_calls : End → (FdTable → End) → End
and_calls (returns t) k = k t
and_calls e k = e

unfoldable pub calls : List Call → FdTable → End
calls [] t = returns t
calls (c ∷ cs) t = and_calls (call c t) (calls cs)

abbrev pub inherited : ℕ → FdSource → FdSource
inherited fd raw = record raw { type = fd_inherited; ref = 1; state = null; root = fd }

abbrev pub none_open : ℕ → List (Option ℕ)
none_open zero = []
none_open (suc n) = none ∷ none_open n

-- The static table as the program starts.
abbrev pub blank : FdTable
blank = record {
  heap = λ a. none;
  next = 0;
  slots = none_open max_files;
  locked = false;
  init = false;
}

-- `ok` and `raw` are the answers of the three calls of malloc.
unfoldable pub fd_table_init : (ok : ℕ → Bool) (raw : ℕ → FdSource) → FdTable → End
fd_table_init ok raw t =
    if ok 0
    then (if ok 1
        then (if ok 2
            then returns
                (record (alloc 2 (inherited 2 (raw 2))
                  (alloc 1 (inherited 1 (raw 1)) (alloc 0 (inherited 0 (raw 0)) t))) {
                    init = true;
                  })
            else aborts)
        else aborts)
    else aborts
