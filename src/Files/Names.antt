-- ===== src/Files/Names.antt =====
-- The names of checkpoint files, their parser, the manifest and the checks of headers, of
-- xnd/ckptfile.c. A string is the list of its bytes.
pub mod Laws
use ckpt.Prelude.{
  ℕ, zero, suc, ◌+◌, ◌-◌, ◌*◌, ◌/◌, ◌%◌, ◌<◌, Bool, true, false, not, ◌&&◌, ◌||◌, Option, none,
  some, List, [], ◌∷◌, ◌++◌, length, take, drop, leb, ltb, next32, ◌==◌, if◌then◌else◌,
}
use ckpt.Image.Base.{Header, SharedCacheInfo}
use ckpt.Files.Paths.{xnd_path_join}

-- `%llu` and `%u`: the decimal digits, at most 20.
unfoldable pub digits : ℕ → ℕ → List ℕ → List ℕ
digits zero n acc = acc
digits (suc fuel) n acc =
    let rest = digits fuel (n / 10) ((48 + n % 10) ∷ acc) in
    if ltb n 10 then (48 + n) ∷ acc else rest

abbrev pub decimal : ℕ → List ℕ
decimal n = digits 20 n []

-- "-checkpoints"
abbrev pub checkpoints_text : List ℕ
checkpoints_text = 45 ∷ 99 ∷ 104 ∷ 101 ∷ 99 ∷ 107 ∷ 112 ∷ 111 ∷ 105 ∷ 110 ∷ 116 ∷ 115 ∷ []

-- "epoch-"
abbrev pub epoch_text : List ℕ
epoch_text = 101 ∷ 112 ∷ 111 ∷ 99 ∷ 104 ∷ 45 ∷ []

-- "ckpt-"
abbrev pub ckpt_text : List ℕ
ckpt_text = 99 ∷ 107 ∷ 112 ∷ 116 ∷ 45 ∷ []

-- XND_CKPTFILE_SUFFIX and XND_COMPRESSED_SUFFIX
abbrev pub suffix : List ℕ
suffix = 46 ∷ 120 ∷ 110 ∷ 100 ∷ []

abbrev pub compressed_suffix : List ℕ
compressed_suffix = 46 ∷ 103 ∷ 122 ∷ []

-- XND_CKPTDIR_BASELEN, XND_CKPTDIR_SUBLEN and XND_CKPTFILE_MAXLEN, where `sizeof` of a text counts
-- its null.
abbrev pub ckptdir_baselen : ℕ
ckptdir_baselen = 36 + 13 + 1

abbrev pub ckptdir_sublen : ℕ
ckptdir_sublen = 7 + 21

abbrev pub ckptfile_maxlen : ℕ
ckptfile_maxlen = 6 + 10 + 5 + 4 + 1

abbrev pub ckptpath_maxlen : ℕ
ckptpath_maxlen = ckptdir_baselen + ckptdir_sublen + ckptfile_maxlen

-- `snprintf` into a buffer.
abbrev pub snprintf : ℕ → List ℕ → List ℕ
snprintf len s = take (len - 1) s

-- XND_CKPTFILE_FMT and XND_COMPRESSED_CKPT_FMT
unfoldable pub ckptfile_fmt : ℕ → List ℕ
ckptfile_fmt xnd_pid = ckpt_text ++ (decimal xnd_pid ++ suffix)

unfoldable pub compressed_ckpt_fmt : ℕ → List ℕ
compressed_ckpt_fmt xnd_pid = ckpt_text ++ (decimal xnd_pid ++ (suffix ++ compressed_suffix))

unfoldable pub xnd_ckptfile_name : ℕ → ℕ → Option (List ℕ)
xnd_ckptfile_name outlen xnd_pid =
    if ltb outlen ckptfile_maxlen then none else some (snprintf outlen (ckptfile_fmt xnd_pid))

-- `unparse` is uuid_unparse, and `parse` is uuid_parse.
module _ (unparse : ℕ → List ℕ) (parse : List ℕ → Option ℕ) where
  -- The base directory and the one in it.
  unfoldable pub xnd_ckptdir_name : ℕ → ℕ → List ℕ × List ℕ
  xnd_ckptdir_name uuid epoch =
      (unparse uuid ++ checkpoints_text, snprintf ckptdir_sublen (epoch_text ++ decimal epoch))

  -- XND_CKPTPATH_FMT
  abbrev pub ckptpath_fmt : ℕ → ℕ → ℕ → List ℕ
  ckptpath_fmt uuid epoch xnd_pid =
      unparse uuid
      ++ (checkpoints_text
          ++ (47 ∷ epoch_text
              ++ (decimal epoch ++ (47 ∷ ckpt_text ++ (decimal xnd_pid ++ suffix)))))

  unfoldable pub xnd_ckptpath_name : ℕ → ℕ → ℕ → Bool → List ℕ
  xnd_ckptpath_name uuid epoch xnd_pid use_zlib =
      let name = snprintf ckptpath_maxlen (ckptpath_fmt uuid epoch xnd_pid) in
      if use_zlib then name ++ take (ckptpath_maxlen - length name) compressed_suffix else name

  -- `sscanf` of a literal.
  unfoldable pub literal : List ℕ → List ℕ → Option (List ℕ)
  literal [] s = some s
  literal (x ∷ xs) [] = none
  literal (x ∷ xs) (y ∷ s) = if x == y then literal xs s else none

  -- `sscanf` of a number is `number`.
  module _ (number : List ℕ → Option (ℕ × List ℕ)) where
    abbrev pub scan_pid : ℕ → Option (ℕ × List ℕ) → Option (ℕ × ℕ)
    scan_pid epoch none = none
    scan_pid epoch (some (xnd_pid, rest)) = some (epoch, xnd_pid)

    abbrev pub scan_ckpt : ℕ → Option (List ℕ) → Option (ℕ × ℕ)
    scan_ckpt epoch none = none
    scan_ckpt epoch (some s) = scan_pid epoch (number s)

    abbrev pub scan_epoch : Option (ℕ × List ℕ) → Option (ℕ × ℕ)
    scan_epoch none = none
    scan_epoch (some (epoch, s)) = scan_ckpt epoch (literal (47 ∷ ckpt_text) s)

    -- `sscanf(str, "epoch-%llu/ckpt-%u.xnd", &ep, &id)`, where it finds both numbers.
    abbrev pub scan_name : Option (List ℕ) → Option (ℕ × ℕ)
    scan_name none = none
    scan_name (some s) = scan_epoch (number s)

    abbrev pub parse_rest : List ℕ → Option ℕ → Option (ℕ × ℕ × ℕ)
    parse_rest path none = none
    parse_rest path (some uuid) = elim (scan_name (literal epoch_text (drop (36 + 14) path))) [
      | none ↦ none
      | some (epoch, xnd_pid) ↦ some (uuid, epoch, xnd_pid)
    ]

    -- The `sizeof` of "-checkpoints/" is 14.
    unfoldable pub xnd_ckptfile_parse : List ℕ → Option (ℕ × ℕ × ℕ)
    xnd_ckptfile_parse path = parse_rest path (parse (take 36 path))

-- How the loop of `xnd_ckptfile_write_manifest` ends: with the pids that it has stored, with a store
-- behind the places of the manifest, or not in the rounds given.
pub data Gathered : Type 0 where
  gathered : List ℕ → Gathered
  overrun unfinished : Gathered

abbrev pub stored : ℕ → Gathered → Gathered
stored id (gathered pids) = gathered (id ∷ pids)
stored id overrun = overrun
stored id unfinished = unfinished

-- A pid goes to the next of the `room` places that are left.
abbrev pub store_pid : ℕ → ℕ → (ℕ → Gathered) → Gathered
store_pid id zero rest = overrun
store_pid id (suc room) rest = stored id (rest room)

abbrev pub visit : Bool → ℕ → ℕ → (ℕ → Gathered) → Gathered
visit true id room rest = store_pid id room rest
visit false id room rest = rest room

-- The loop of `xnd_ckptfile_write_manifest` from `id` to `high`, a u32 that wraps.
unfoldable pub gather : (ℕ → Bool) → ℕ → ℕ → ℕ → ℕ → Gathered
gather has high zero id room = unfinished
gather has high (suc n) id room =
    if ltb high id then gathered [] else visit (has id) id room (gather has high n (next32 id))

-- XND_MANIFEST_ENTRY_MAX
abbrev pub manifest_max : ℕ
manifest_max = 256

-- What is written, or -1, or an end of the loop that gives nothing.
pub data Manifest : Type 0 where
  written : List ℕ → Manifest
  failed undefined endless : Manifest

abbrev pub counted : ℕ → Gathered → Manifest
counted total (gathered pids) = if length pids == total then written pids else failed
counted total overrun = undefined
counted total unfinished = endless

-- `exists` and `compressed` tell what `xnd_ckptfile_exists` and `xnd_compressed_ckpt_exists` find.
module _ (exists compressed : List ℕ → Bool) where
  abbrev pub has_checkpoint : ℕ → Bool
  has_checkpoint id =
      exists (snprintf ckptfile_maxlen (ckptfile_fmt id))
      || compressed (snprintf ckptfile_maxlen (compressed_ckpt_fmt id))

  -- The entries of the manifest. One round more than there are pids from the least to the greatest
  -- is enough, unless the greatest is that of the type.
  unfoldable pub xnd_ckptfile_write_manifest : ℕ → ℕ → ℕ → Manifest
  xnd_ckptfile_write_manifest total min_xnd_pid max_xnd_pid = counted total (
      gather has_checkpoint max_xnd_pid (suc (max_xnd_pid + 1 - min_xnd_pid)) min_xnd_pid
        manifest_max)

-- `xnd_ckptfile_valid`, with what shared_cache_check answers.
unfoldable pub xnd_ckptfile_valid : ℕ → (SharedCacheInfo → Bool) → Header → Bool
xnd_ckptfile_valid magic shared_cache_check h =
    h.magic == magic
    && shared_cache_check h.shared_cache_info
    && not (ltb 1024 h.entry_count || ltb 1023 h.region_count)
