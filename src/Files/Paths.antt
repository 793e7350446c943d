-- ===== src/Files/Paths.antt =====
-- The functions on paths of xnd/util/path.c. A string is the list of its bytes, without the null at
-- its end; a function that fills a buffer gives what it fills it with, and `none` is -1.
pub mod Laws
use ckpt.Prelude.{
  ℕ, zero, suc, ◌+◌, ◌-◌, ◌<◌, Bool, true, false, ◌&&◌, ◌||◌, Option, none, some, List, [], ◌∷◌,
  ◌++◌, length, take, leb, ltb, ◌==◌, if◌then◌else◌,
}

-- `strrchr`: what stands before and behind the last of a byte.
abbrev after_last : ℕ → ℕ → List ℕ → Option (List ℕ × List ℕ) → Option (List ℕ × List ℕ)
after_last c x xs none = if x == c then some ([], xs) else none
after_last c x xs (some (front, back)) = some (x ∷ front, back)

unfoldable pub strrchr : ℕ → List ℕ → Option (List ℕ × List ℕ)
strrchr c [] = none
strrchr c (x ∷ xs) = after_last c x xs (strrchr c xs)

abbrev pub slash : ℕ
slash = 47

abbrev pub dot : ℕ
dot = 46

abbrev copy_before : ℕ → Option (List ℕ × List ℕ) → Option (List ℕ)
copy_before dstlen none = some []
copy_before dstlen (some (front, back)) = if leb dstlen (length front) then none else some front

unfoldable pub xnd_path_dirname : ℕ → List ℕ → Option (List ℕ)
xnd_path_dirname dstlen path = if dstlen == 0 then none else copy_before dstlen (strrchr slash path)

abbrev behind_slash : List ℕ → Option (List ℕ × List ℕ) → List ℕ
behind_slash path none = path
behind_slash path (some (front, back)) = back

unfoldable pub xnd_path_basename_inplace : List ℕ → List ℕ
xnd_path_basename_inplace path = behind_slash path (strrchr slash path)

unfoldable pub xnd_path_basename : ℕ → List ℕ → Option (List ℕ)
unfolding xnd_path_basename_inplace
xnd_path_basename dstlen path =
    let src = xnd_path_basename_inplace path in if leb dstlen (length src) then none else some src

-- The length that is copied: from the name to the last dot of the path. Where the dot stands before
-- the name the difference is negative, a number of 64 bits at least 2 ^ 63.
abbrev stem_length : ℕ → ℕ → Option (List ℕ × List ℕ) → Option ℕ
stem_length skipped len none = some len
stem_length skipped len (some (front, back)) =
    if leb skipped (length front) then some (length front - skipped) else none

abbrev copy_stem : ℕ → List ℕ → Option ℕ → Option (List ℕ)
copy_stem outlen src none = none
copy_stem outlen src (some len) = if leb outlen len then none else some (take len src)

unfoldable pub xnd_path_stem : ℕ → List ℕ → Option (List ℕ)
unfolding xnd_path_basename_inplace
xnd_path_stem outlen path =
    let src = xnd_path_basename_inplace path in
    copy_stem outlen src (stem_length (length path - length src) (length src) (strrchr dot path))

abbrev copy_behind : ℕ → Option (List ℕ × List ℕ) → Option (List ℕ)
copy_behind outlen none = some []
copy_behind outlen (some (front, back)) = if leb outlen (length back) then none else some back

unfoldable pub xnd_path_ext : ℕ → List ℕ → Option (List ℕ)
xnd_path_ext outlen path = if outlen == 0 then none else copy_behind outlen (strrchr dot path)

abbrev ends_with_slash : List ℕ → Bool
ends_with_slash [] = false
ends_with_slash (x ∷ []) = x == slash
ends_with_slash (x ∷ y ∷ l) = ends_with_slash (y ∷ l)

abbrev starts_with_slash : List ℕ → Bool
starts_with_slash [] = false
starts_with_slash (x ∷ l) = x == slash

-- `sizeof('/')` and `sizeof('\0')`: a character constant is an int in C.
abbrev pub sizeof_char : ℕ
sizeof_char = 4

-- How `xnd_path_join` ends: it fills the buffer, it returns -1, or it reads before its left part.
pub data Joined : Type 0 where
  joined : List ℕ → Joined
  refused undefined : Joined

abbrev fitted : ℕ → ℕ → List ℕ → Joined
fitted outlen len s = if ltb outlen len then refused else joined s

-- The last byte of an empty left part is the one before it.
unfoldable pub xnd_path_join : ℕ → List ℕ → List ℕ → Joined
xnd_path_join outlen [] r = undefined
xnd_path_join outlen (x ∷ xs) r =
    let l = x ∷ xs in
    let len = length l + length r in
    if ends_with_slash l && starts_with_slash r
    then fitted outlen len (take (length l - 1) l ++ r)
    else if ends_with_slash l || starts_with_slash r
    then fitted outlen (len + sizeof_char) (l ++ r)
    else fitted outlen (len + sizeof_char + sizeof_char) (l ++ slash ∷ r)
