-- ===== src/Fd/History.antt =====
-- Every history of calls of ckpt.Fd.Base from the start of the program.
use ckpt.Prelude.{
  ℕ, zero, suc, ◌+◌, ◌<◌, ◌≡◌, ◌≢◌, refl, Bool, true, false, Option, none, some, List, [], ◌∷◌,
  length, All, set, subst, arith,
}
use ckpt.Fd.Base.{
  fd_directory, FdSource, FdTable, max_files, slot, put, alloc, End, returns, waits, aborts,
  undefined, fd_table_opendir, new_directory, ensure, as_directory, open_directory, Call, opens,
  opens_dir, dups, closes, call, calls, and_calls, inherited, blank, fd_table_init,
}
use ckpt.Fd.Laws.{
  IsSafe, Fine, alloc-IsSafe, grow, if_lem, slot-holders, with_lock-Sound, follow-Fine, open-Sound,
  close-Sound, dup-Sound, Sound,
}

turn-IsSafe :
    {n : ℕ} (a : ℕ) (s s' : FdSource) (t : FdTable)
    → t.heap a ≡ some s
    → s'.ref ≡ s.ref
    → IsSafe n t
    → IsSafe n (record t { heap = put t.heap a (some s') })
turn-IsSafe a s s' t at same h = record {
  size = h.size;
  held = λ b. ground (arith, h.held b);
  few = λ b. ground (arith, h.few b);
  fresh = λ b q. ground (arith, h.fresh b q);
}

as_directory-Fine :
    (n fd dirp : ℕ) (v : Option ℕ) (t : FdTable)
    → v ≢ none
    → slot t.slots fd ≡ v
    → IsSafe n t
    → Fine n (as_directory dirp v t)
as_directory-Fine n fd dirp none t some_there e h = absurd (some_there refl)
as_directory-Fine n fd dirp (some a) t some_there e h =
    follow-Fine n n a _ t _ refl (slot-holders t.slots fd a e) h
      (λ s at pos. turn-IsSafe a s (record s { type = fd_directory; dirp = dirp }) t at refl h)

slot-set :
    (slots : List (Option ℕ)) (fd a : ℕ)
    → fd < length slots
    → slot (set slots fd (some a)) fd ≢ none
slot-set [] fd a lt e = absurd (omega arith)
slot-set (x ∷ xs) zero a lt e = cc
slot-set (x ∷ xs) (suc fd) a lt e = slot-set xs fd a (omega arith) e

module _ (n : ℕ) (raw : FdSource) (fd : ℕ) (path : List ℕ) (flags dirp : ℕ) where
  open_directory-Fine :
      (ok : Bool) (v : Option ℕ) (u : FdTable)
      → fd < max_files
      → slot u.slots fd ≡ v
      → IsSafe n u
      → Fine (suc n) (open_directory dirp fd (ensure ok (new_directory raw path flags) fd v u))
  open_directory-Fine ok (some a) u lt e h =
      as_directory-Fine (suc n) fd dirp (slot u.slots fd) u (λ q. cc) refl (grow (omega arith) h)
  open_directory-Fine false none u lt e h = tt
  open_directory-Fine true none u lt e h =
      as_directory-Fine (suc n) fd dirp _ _ (slot-set u.slots fd u.next (omega (arith, h.size)))
        refl
        (alloc-IsSafe (suc n) fd (new_directory raw path flags) u lt refl (omega arith)
          (grow (omega arith) h))

  opendir-Sound :
      (ok : Bool) (t : FdTable)
      → fd < max_files
      → IsSafe n t
      → t.locked ≡ false
      → Sound (suc n) (fd_table_opendir ok raw fd path flags dirp t)
  unfolding fd_table_opendir
  opendir-Sound ok t lt h free =
      with_lock-Sound n fd _ t lt (λ u g. open_directory-Fine ok (slot u.slots fd) u lt refl g) h
        free

-- The descriptors that the system answers with are below the size of the table.
abbrev pub InRange : Call → Type 0
InRange (opens ok raw fd path flags mode) = fd < max_files
InRange (opens_dir ok raw fd path flags dirp) = fd < max_files
InRange (dups old new) = (old < max_files) × (new < max_files)
InRange (closes fd) = fd < max_files

call-Sound :
    (n : ℕ) (c : Call) (t : FdTable)
    → n < 2147483647
    → InRange c
    → IsSafe n t
    → t.locked ≡ false
    → Sound (suc n) (call c t)
unfolding call
call-Sound n (opens ok raw fd path flags mode) t small lt h free =
    open-Sound n small ok raw fd path flags mode t lt h free
call-Sound n (opens_dir ok raw fd path flags dirp) t small lt h free =
    opendir-Sound n raw fd path flags dirp ok t lt h free
call-Sound n (dups old new) t small lt h free = dup-Sound n small old new t lt.0 lt.1 h free
call-Sound n (closes fd) t small lt h free = close-Sound n small fd t lt h free

and_calls-Sound :
    (n m : ℕ) (e : End) (k : FdTable → End)
    → Sound n e
    → ((t : FdTable) → IsSafe n t → t.locked ≡ false → Sound m (k t))
    → Sound m (and_calls e k)
and_calls-Sound n m (returns t) k h each = each t h.0 h.1
and_calls-Sound n m waits k h each = absurd h
and_calls-Sound n m aborts k h each = tt
and_calls-Sound n m undefined k h each = absurd h

calls-Sound :
    (n : ℕ) (cs : List Call) (t : FdTable)
    → n + length cs < 2147483647
    → All InRange cs
    → IsSafe n t
    → t.locked ≡ false
    → Sound (n + length cs) (calls cs t)
unfolding calls
calls-Sound n [] t small lt h free = (grow (omega arith) h, free)
calls-Sound n (c ∷ cs) t small lt h free =
    and_calls-Sound (suc n) _ (call c t) (calls cs) (call-Sound n c t (omega arith) lt.0 h free)
      (λ u g open_now.
        let eq : suc n + length cs ≡ n + suc (length cs) = omega arith in
        subst (λ m. Sound m (calls cs u)) eq
          (calls-Sound (suc n) cs u (omega arith) lt.1 g open_now))

blank-IsSafe : IsSafe 1 blank
blank-IsSafe = record {
  size = refl;
  held = λ a. omega arith;
  few = λ a. omega arith;
  fresh = λ a q. refl;
}

ready : {n : ℕ} (b : Bool) (t : FdTable) → IsSafe n t → IsSafe n (record t { init = b })
ready b t h = record { size = h.size; held = h.held; few = h.few; fresh = h.fresh }

inherit-IsSafe :
    (fd : ℕ) (raw : FdSource) (t : FdTable)
    → fd < max_files
    → IsSafe 1 t
    → IsSafe 1 (alloc fd (inherited fd raw) t)
inherit-IsSafe fd raw t lt h = alloc-IsSafe 1 fd (inherited fd raw) t lt refl (omega arith) h

init-Sound : (ok : ℕ → Bool) (raw : ℕ → FdSource) → Sound 1 (fd_table_init ok raw blank)
unfolding fd_table_init
init-Sound ok raw =
    if_lem (Sound 1) (ok 0) _ _
      (λ _.
        if_lem (Sound 1) (ok 1) _ _
          (λ _.
            if_lem (Sound 1) (ok 2) _ _
              (λ _. (
                ready true _ (
                    inherit-IsSafe 2 (raw 2) _ (omega arith) (
                      inherit-IsSafe 1 (raw 1) _ (omega arith)
                        (inherit-IsSafe 0 (raw 0) _ (omega arith) blank-IsSafe))),
                refl,
              ))
              (λ _. tt))
          (λ _. tt))
      (λ _. tt)

-- From the start of the program, after `fd_table_init` and any history of fewer than 2 ^ 31 - 2 calls
-- on descriptors below the size of the table, whatever the answers of malloc, no call has followed a
-- freed pointer, left the array, overflowed a count or waited for the lock, and in the table that is left the count of
-- each source is at least the number of the slots that hold it.
pub history-Sound :
    (ok : ℕ → Bool) (raw : ℕ → FdSource) (cs : List Call)
    → length cs < 2147483646
    → All InRange cs
    → Sound (1 + length cs) (and_calls (fd_table_init ok raw blank) (calls cs))
history-Sound ok raw cs small range =
    and_calls-Sound 1 (1 + length cs) (fd_table_init ok raw blank) (calls cs) (init-Sound ok raw)
      (λ t h free. calls-Sound 1 cs t (omega arith) range h free)
