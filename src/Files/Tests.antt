-- ===== src/Files/Tests.antt =====
-- Tests of the names of files.
use ckpt.Prelude.{
  ℕ, ◌≡◌, refl, Bool, true, false, ◌&&◌, Option, none, some, List, [], ◌∷◌, ◌++◌, length, replicate,
  arith, ◌==◌,
}
use ckpt.Image.Base.{member}
use ckpt.Files.Paths.{joined, strrchr, xnd_path_join, xnd_path_dirname, xnd_path_basename}
use ckpt.Files.Paths.Laws.{dirname-join}
use ckpt.Files.Names.{
  digits, xnd_ckptpath_name, ckptpath_fmt, compressed_suffix, xnd_ckptfile_parse, gather, written,
  xnd_ckptfile_write_manifest, ckptfile_fmt, compressed_ckpt_fmt,
}
use ckpt.Files.Names.Laws.{ckptpath_name-whole, ckptfile_parse-name}

-- "/tmp" and "a.b"
abbrev tmp : List ℕ
tmp = 47 ∷ 116 ∷ 109 ∷ 112 ∷ []

abbrev file : List ℕ
file = 97 ∷ 46 ∷ 98 ∷ []

dirname-join_example :
    (path : List ℕ) × (xnd_path_join 20 tmp file ≡ joined path)
    × (xnd_path_dirname 20 path ≡ some tmp)
    × (xnd_path_basename 20 path ≡ some file)
unfolding strrchr
dirname-join_example = dirname-join 20 tmp file (λ e. cc) refl refl (omega arith)

abbrev unparse : ℕ → List ℕ
unparse uuid = replicate 36 uuid

abbrev parse : List ℕ → Option ℕ
parse (x ∷ l) = some x
parse [] = none

ckptpath_name-whole_example :
    xnd_ckptpath_name unparse parse 97 12 3 true
    ≡ ckptpath_fmt unparse parse 97 12 3 ++ compressed_suffix
ckptpath_name-whole_example =
    ckptpath_name-whole unparse parse 97 12 3 refl (omega arith) (omega arith) true

abbrev number : List ℕ → Option (ℕ × List ℕ)
number l = some (7, l)

ckptfile_parse-name_example :
    xnd_ckptfile_parse unparse parse number (xnd_ckptpath_name unparse parse 97 12 3 false) ≡ none
ckptfile_parse-name_example =
    ckptfile_parse-name unparse parse 97 12 3 refl (omega arith) (omega arith) number false

-- The files of the pids 1 and 3, the second compressed.
abbrev exists : List ℕ → Bool
exists name = length name == 10 && member 49 name

abbrev compressed : List ℕ → Bool
compressed name = length name == 13 && member 51 name

manifest : xnd_ckptfile_write_manifest exists compressed 2 1 3 ≡ written (1 ∷ 3 ∷ [])
unfolding xnd_ckptfile_write_manifest gather ckptfile_fmt compressed_ckpt_fmt digits
manifest = refl
