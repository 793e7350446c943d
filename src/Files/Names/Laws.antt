-- ===== src/Files/Names/Laws.antt =====
-- Laws of ckpt.Files.Names.
use mathlib.Core.List.{append_assoc, append-nil}
use native.Mathlib.Nat.{pow-suc, div-lt_iff_lt-mul}
use ckpt.Prelude.{
  ℕ, zero, suc, ◌+◌, ◌-◌, ◌*◌, ◌/◌, ◌%◌, ◌^◌, ◌≤◌, ◌<◌, ◌≡◌, refl, sym, ap, ◌∙◌, subst, Bool, true,
  false, Option, none, some, List, [], ◌∷◌, ◌++◌, length, take, drop, ltb, arith, if◌then◌else◌,
  inl, inr, Bool-cases, length-append,
}
use ckpt.Files.Names.{
  digits, decimal, xnd_ckptpath_name, xnd_ckptfile_parse, parse_rest, literal, Gathered, gathered,
  overrun, ckptpath_fmt, ckptpath_maxlen, ckpt_text, epoch_text, checkpoints_text, suffix,
  compressed_suffix, snprintf,
}

drop_more : (n : ℕ) (xs ys : List ℕ) → drop (length xs + n) (xs ++ ys) ≡ drop n ys
drop_more n [] ys = ap (λ i. drop i ys) (omega arith)
drop_more n (x ∷ xs) ys =
    let e : suc (length xs) + n ≡ suc (length xs + n) = omega arith in rw e (drop_more n xs ys)

take_all : (n : ℕ) (xs : List ℕ) → length xs ≤ n → take n xs ≡ xs
take_all zero [] h = refl
take_all (suc n) [] h = refl
take_all zero (x ∷ xs) h = elim h [ ]
take_all (suc n) (x ∷ xs) h = ap (λ l. x ∷ l) (take_all n xs (omega arith))

quotient_lt : (n k : ℕ) → n < 10 ^ suc k → ltb n 10 ≡ false → (0 < k) × (n / 10 < 10 ^ k)
quotient_lt n zero lt large = absurd (ground arith)
quotient_lt n (suc k) lt large =
    let e : 10 ^ suc (suc k) ≡ 10 ^ suc k * 10 = pow-suc 10 (suc k) in
    (omega arith, (div-lt_iff_lt-mul {k = 10} (omega arith)).1 (omega (arith, e)))

-- A number below 10 ^ k has at most k digits.
length-digits :
    (fuel n k : ℕ) (acc : List ℕ)
    → 0 < k
    → k ≤ fuel
    → n < 10 ^ k
    → length (digits fuel n acc) ≤ k + length acc
unfolding digits
length-digits zero n k acc pos h lt = absurd (omega arith)
length-digits (suc fuel) n zero acc pos h lt = absurd (omega arith)
length-digits (suc fuel) n (suc k) acc pos h lt = elim (Bool-cases (ltb n 10)) [
  | inl small ↦ rw small (omega arith)
  | inr large ↦
      let (pos', lt') = quotient_lt n k lt large in
      rw large
        (omega (arith, length-digits fuel (n / 10) k ((48 + n % 10) ∷ acc) pos' (omega arith) lt'))
]

module _ (unparse : ℕ → List ℕ) (parse : List ℕ → Option ℕ) (uuid epoch xnd_pid : ℕ)
    (sized : length (unparse uuid) ≡ 36) (small_epoch : epoch < 2 ^ 64)
    (small_pid : xnd_pid < 2 ^ 32) where
  suffixed :
      (fmt : List ℕ) (n : ℕ) (b : Bool)
      → take n compressed_suffix ≡ compressed_suffix
      → (if b then fmt ++ take n compressed_suffix else fmt)
        ≡ fmt ++ (if b then compressed_suffix else [])
  suffixed fmt n true h = ap (λ l. fmt ++ l) h
  suffixed fmt n false h = sym (append-nil fmt)

  no_epoch :
      (number : List ℕ → Option (ℕ × List ℕ)) (path : List ℕ) (o : Option ℕ)
      → literal unparse parse epoch_text (drop 50 path) ≡ none
      → parse_rest unparse parse number path o ≡ none
  no_epoch number path none h = refl
  no_epoch number path (some u) h = rw (h, parse_rest) refl

  fmt_length : length (ckptpath_fmt unparse parse uuid epoch xnd_pid) ≤ 95
  fmt_length =
      let tail = 47 ∷ ckpt_text ++ (decimal xnd_pid ++ suffix) in
      let middle = checkpoints_text ++ (47 ∷ epoch_text ++ (decimal epoch ++ tail)) in
      omega (
        arith,
        length-append (unparse uuid) middle,
        length-append (decimal epoch) tail,
        length-append (decimal xnd_pid) suffix,
        length-digits 20 epoch 20 [] (omega arith) (omega arith) (omega arith),
        length-digits 20 xnd_pid 10 [] (omega arith) (omega arith) (omega arith),
      )

  -- The name of a checkpoint is never cut off by its buffer, with or without compression. A uuid has
  -- 36 characters, the epoch is a number of 64 bits and the pid one of 32.
  pub ckptpath_name-whole :
      (use_zlib : Bool)
      → xnd_ckptpath_name unparse parse uuid epoch xnd_pid use_zlib
        ≡ ckptpath_fmt unparse parse uuid epoch xnd_pid
          ++ (if use_zlib then compressed_suffix else [])
  unfolding xnd_ckptpath_name
  ckptpath_name-whole use_zlib =
      let fmt = ckptpath_fmt unparse parse uuid epoch xnd_pid in
      let whole : snprintf ckptpath_maxlen fmt ≡ fmt =
        take_all (ckptpath_maxlen - 1) fmt (omega (arith, fmt_length)) in
      let room : take (ckptpath_maxlen - length fmt) compressed_suffix ≡ compressed_suffix =
        take_all (ckptpath_maxlen - length fmt) compressed_suffix (omega (arith, fmt_length)) in
      subst
        (λ name.
          (if use_zlib
            then name ++ take (ckptpath_maxlen - length name) compressed_suffix
            else name)
          ≡ fmt ++ (if use_zlib then compressed_suffix else []))
        (sym whole) (suffixed fmt (ckptpath_maxlen - length fmt) use_zlib room)

  -- `xnd_ckptfile_parse` fails on the name of every checkpoint: it skips the null of a text that the
  -- path does not hold, and so the first letter of "epoch-".
  pub ckptfile_parse-name :
      (number : List ℕ → Option (ℕ × List ℕ)) (use_zlib : Bool)
      → xnd_ckptfile_parse unparse parse number
          (xnd_ckptpath_name unparse parse uuid epoch xnd_pid use_zlib)
        ≡ none
  unfolding xnd_ckptfile_parse literal
  ckptfile_parse-name number use_zlib =
      let end : List ℕ = if use_zlib then compressed_suffix else [] in
      let tail = decimal epoch ++ (47 ∷ ckpt_text ++ (decimal xnd_pid ++ suffix)) in
      let middle = checkpoints_text ++ (47 ∷ epoch_text ++ tail) in
      let name : xnd_ckptpath_name unparse parse uuid epoch xnd_pid use_zlib
          ≡ unparse uuid ++ (middle ++ end) =
        ckptpath_name-whole use_zlib ∙ append_assoc (unparse uuid) middle end in
      let skipped : drop 50 (unparse uuid ++ (middle ++ end)) ≡ drop 14 (middle ++ end) =
        ap (λ i. drop (i + 14) (unparse uuid ++ (middle ++ end))) (sym sized)
        ∙ drop_more 14 (unparse uuid) (middle ++ end) in
      rw name (
        no_epoch number (unparse uuid ++ (middle ++ end))
          (parse (take 36 (unparse uuid ++ (middle ++ end)))) (rw skipped refl))

-- The pids from `id` on, `n` of them, that have a checkpoint.
unfoldable pub present : (ℕ → Bool) → ℕ → ℕ → List ℕ
present has zero id = []
present has (suc n) id = let rest = present has n (suc id) in if has id then id ∷ rest else rest

-- What the loop does with `room` places left, of the pids that it is to store.
abbrev Stores : List ℕ → ℕ → Gathered → Type 0
Stores pids room g = (length pids ≤ room → g ≡ gathered pids) × (room < length pids → g ≡ overrun)
