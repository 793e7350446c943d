-- ===== src/Files/Paths/Laws.antt =====
-- Laws of ckpt.Files.Paths.
use ckpt.Prelude.{
  ℕ, ◌+◌, ◌≤◌, ◌≡◌, ◌≢◌, refl, false, none, some, List, [], ◌∷◌, ◌++◌, length, arith,
}
use ckpt.Files.Paths.{
  strrchr, slash, xnd_path_dirname, xnd_path_basename_inplace, xnd_path_basename, xnd_path_join,
  joined, ends_with_slash, starts_with_slash,
}

strrchr_last :
    (c : ℕ) (front back : List ℕ)
    → strrchr c back ≡ none
    → strrchr c (front ++ c ∷ back) ≡ some (front, back)
unfolding strrchr
strrchr_last c [] back h = ground (arith, h)
strrchr_last c (x ∷ front) back h = rw (strrchr_last c front back h) refl

no_start : (r : List ℕ) → strrchr slash r ≡ none → starts_with_slash r ≡ false
unfolding strrchr
no_start [] h = refl
no_start (x ∷ r) h = ground arith

-- A directory and a file name that are joined come apart again. The directory is not empty and does
-- not end with a slash, the name has none, and the buffers have 8 bytes more than the two, in each of
-- which the joined path fits.
pub dirname-join :
    (outlen : ℕ) (l r : List ℕ)
    → l ≢ []
    → ends_with_slash l ≡ false
    → strrchr slash r ≡ none
    → length l + length r + 8 ≤ outlen
    → (path : List ℕ) × (xnd_path_join outlen l r ≡ joined path)
      × (xnd_path_dirname outlen path ≡ some l)
      × (xnd_path_basename outlen path ≡ some r)
unfolding xnd_path_join xnd_path_dirname xnd_path_basename xnd_path_basename_inplace
dirname-join outlen [] r some_dir left right fits = absurd (some_dir refl)
dirname-join outlen (x ∷ xs) r some_dir left right fits =
    let l = x ∷ xs in
    (
      l ++ slash ∷ r,
      ground (arith, no_start r right),
      rw (strrchr_last slash l r right) (ground arith),
      rw (strrchr_last slash l r right) (ground arith),
    )
