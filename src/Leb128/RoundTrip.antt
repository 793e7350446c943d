-- ===== src/Leb128/RoundTrip.antt =====
-- What ckpt.Leb128 writes it reads back.
use native.Mathlib.Numerals.{towards_suc}
use native.Mathlib.Decide.{ℕ_discrete}
use ckpt.Prelude.{
  ℕ, zero, suc, ◌+◌, ◌*◌, ◌/◌, ◌%◌, ◌^◌, ◌≤◌, ◌<◌, ◌≡◌, ◌≢◌, ◌∙◌, ap, some, List, [], ◌∷◌, ◌++◌,
  length, arith,
}
use ckpt.Leb128.{encode_from, encode_uleb128, decode_from, decode_uleb128}

pub power_seven : (s : ℕ) → 2 ^ (s + 7) ≡ 128 * 2 ^ s
power_seven s = simp towards_suc (omega arith)

-- A value splits into its lowest group and the groups above.
groups : (v s : ℕ) → v * 2 ^ s ≡ v % 128 * 2 ^ s + v / 128 * 2 ^ (s + 7)
groups v s =
    let split : v ≡ v % 128 + v / 128 * 128 = omega arith in
    omega (arith, ap (λ (t : ℕ). t * 2 ^ s) split, ap (λ (t : ℕ). v / 128 * t) (power_seven s))

-- One byte read: the last of a number, and one with others behind it.
read_last :
    (b result shift : ℕ) (rest : List ℕ)
    → b < 128
    → shift < 64
    → result + b * 2 ^ shift < 2 ^ 64
    → decode_from (b ∷ rest) result shift ≡ some (result + b * 2 ^ shift, rest)
unfolding decode_from
read_last b result shift rest small room fits = ground arith

read_more :
    (g result shift : ℕ) (rest : List ℕ)
    → g < 128
    → shift < 64
    → result + g * 2 ^ shift < 2 ^ 64
    → decode_from ((g + 128) ∷ rest) result shift
      ≡ decode_from rest (result + g * 2 ^ shift) (shift + 7)
unfolding decode_from
read_more g result shift rest small room fits = ground arith

-- What decoding and the length say of the bytes for `v`, read behind `result` at `shift`.
abbrev ReadsBack : ℕ → ℕ → ℕ → ℕ → List ℕ → List ℕ → Type 0
ReadsBack k v result shift rest bs =
    (encode_from k v ≡ some bs)
    × (decode_from (bs ++ rest) result shift ≡ some (result + v * 2 ^ shift, rest))
    × (1 ≤ length bs)
    × (length bs ≤ k)

module _ (result shift : ℕ) (rest : List ℕ) where
  last_group :
      (k v : ℕ)
      → v / 128 ≡ 0
      → shift < 64
      → result + v * 2 ^ shift < 2 ^ 64
      → ReadsBack (suc k) v result shift rest (v % 128 ∷ [])
  unfolding encode_from
  last_group k v small room fits =
      let same : v % 128 ≡ v = omega arith in
      (
        ground arith,
        rw same (read_last v result shift rest (omega arith) room fits),
        omega arith,
        omega arith,
      )

  more_groups :
      (k v : ℕ) (bs : List ℕ)
      → v / 128 ≢ 0
      → shift < 64
      → result + v * 2 ^ shift < 2 ^ 64
      → ReadsBack k (v / 128) (result + v % 128 * 2 ^ shift) (shift + 7) rest bs
      → ReadsBack (suc k) v result shift rest ((v % 128 + 128) ∷ bs)
  unfolding encode_from
  more_groups k v bs more room fits (e, d, lo, hi) =
      let split = groups v shift in
      (
        ground (arith, e),
        read_more (v % 128) result shift (bs ++ rest) (omega arith) room (omega arith)
            ∙ d
            ∙ ap (λ n. some (n, rest)) (omega (arith, split)),
        omega arith,
        omega arith,
      )

reads_back :
    (k v result shift : ℕ) (rest : List ℕ)
    → v < 128 ^ suc k
    → shift + 7 * suc k ≤ 70
    → result + v * 2 ^ shift < 2 ^ 64
    → (bs : List ℕ) × ReadsBack (suc k) v result shift rest bs
reads_back zero v result shift rest small room fits =
    (_, last_group result shift rest 0 v (omega arith) (omega arith) fits)
reads_back (suc k) v result shift rest small room fits = elim (ℕ_discrete (v / 128) 0) [
  | yes e ↦ (_, last_group result shift rest (suc k) v e (omega arith) fits)
  | no n ↦
      let split = groups v shift in
      let (bs, h) =
        reads_back k (v / 128) (result + v % 128 * 2 ^ shift) (shift + 7) rest (omega arith)
          (omega arith) (omega (arith, split)) in
      (_, more_groups result shift rest (suc k) v bs n (omega arith) fits h)
]

pub decode-encode :
    (v : ℕ) (rest : List ℕ)
    → v < 2 ^ 64
    → (bs : List ℕ) × (encode_uleb128 v ≡ some bs)
      × (decode_uleb128 (bs ++ rest) ≡ some (v, rest))
      × (1 ≤ length bs)
      × (length bs ≤ 10)
unfolding encode_uleb128 decode_uleb128
decode-encode v rest fits =
    let (bs, (e, d, lo, hi)) = reads_back 9 v 0 0 rest (omega arith) (omega arith) (omega arith) in
    let all : 0 + v * 2 ^ 0 ≡ v = omega arith in (bs, e, d ∙ ap (λ n. some (n, rest)) all, lo, hi)
