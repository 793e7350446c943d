-- ===== src/Leb128/Signed/Laws.antt =====
-- What ckpt.Leb128.Signed writes it reads back.
use native.Mathlib.Decide.{ℕ_discrete, dec_lt}
use native.Mathlib.Nat.{pow-le-pow_right}
use ckpt.Prelude.{
  ℕ, zero, suc, ◌+◌, ◌-◌, ◌*◌, ◌/◌, ◌%◌, ◌^◌, ◌≤◌, ◌<◌, ◌≡◌, ◌≢◌, ◌⊎◌, inl, inr, ◌∙◌, refl, ap,
  true, false, some, List, [], ◌∷◌, ◌++◌, length, ltb, leb, ◌==◌, arith,
}
use ckpt.Leb128.{encode_uleb128, decode_uleb128}
use ckpt.Leb128.RoundTrip.{power_seven, decode-encode}
use ckpt.Leb128.Signed.{
  arithmetic_shift, sign_fill, encode_signed_from, encode_sleb128, extend, decode_signed_from,
  decode_sleb128,
}

-- A value of 64 bits that the loop writes in `k + 1` rounds: its size is below 64 * 128 ^ k.
record IsShort (k v : ℕ) : Type 0 where
  small : v < 2 ^ 64
  range : (2 ^ 63 ≤ v → 2 ^ 64 ≤ v + 64 * 128 ^ k) × (v < 2 ^ 63 → v < 64 * 128 ^ k)

shift-IsShort : (k v : ℕ) → IsShort (suc k) v → IsShort k (arithmetic_shift v)
shift-IsShort k v h = elim (dec_lt v (2 ^ 63)) [
  | yes lt ↦ record { small = ground arith; range = ground (arith, h.range.1 lt) }
  | no ge ↦ record { small = ground arith; range = ground (arith, h.range.0 (omega arith)) }
]

-- The bits above the lowest group, where they end up.
shifted :
    (v shift : ℕ)
    → v < 2 ^ 64
    → (v * 2 ^ shift) % 2 ^ 64
      ≡ (v % 128 * 2 ^ shift + arithmetic_shift v * 2 ^ (shift + 7)) % 2 ^ 64
shifted v shift small = elim (dec_lt v (2 ^ 63)) [
  | yes lt ↦
      let split : v ≡ v % 128 + v / 128 * 128 = omega arith in
      let same : arithmetic_shift v ≡ v / 128 = ground arith in
      rw (same, power_seven) (omega (arith, ap (λ (t : ℕ). t * 2 ^ shift) split))
  | no ge ↦
      let split : v ≡ v % 128 + v / 128 * 128 = omega arith in
      let same : arithmetic_shift v ≡ v / 128 + (2 ^ 64 - 2 ^ 57) = ground arith in
      rw (same, power_seven) (omega (arith, ap (λ (t : ℕ). t * 2 ^ shift) split))
]

read_last :
    (b result shift : ℕ) (rest : List ℕ)
    → b < 128
    → shift < 64
    → decode_signed_from (b ∷ rest) result shift
      ≡ some (extend b ((result + b * 2 ^ shift) % 2 ^ 64) (shift + 7), rest)
unfolding decode_signed_from
read_last b result shift rest small room =
    let same : b % 128 ≡ b = omega arith in
    let inside : leb 64 shift ≡ false = ground arith in
    let last : ltb b 128 ≡ true = ground arith in simp (same, inside, last) refl

read_more :
    (g result shift : ℕ) (rest : List ℕ)
    → g < 128
    → shift < 64
    → decode_signed_from ((g + 128) ∷ rest) result shift
      ≡ decode_signed_from rest ((result + g * 2 ^ shift) % 2 ^ 64) (shift + 7)
unfolding decode_signed_from
read_more g result shift rest small room =
    let same : (g + 128) % 128 ≡ g = omega arith in
    let inside : leb 64 shift ≡ false = ground arith in
    let more : ltb (g + 128) 128 ≡ false = ground arith in simp (same, inside, more) refl

extend_off : (b sum shift : ℕ) → (b < 64) ⊎ (64 ≤ shift) → extend b sum shift ≡ sum
extend_off b sum shift h = ground arith

extend_on :
    (b sum shift : ℕ)
    → 64 ≤ b
    → shift < 64
    → extend b sum shift ≡ (sum + (2 ^ 64 - 2 ^ shift)) % 2 ^ 64
extend_on b sum shift h room = ground arith

-- A negative value whose upper bits are all set.
extend_negative :
    (v result shift : ℕ)
    → (shift + 7 < 64) ⊎ (shift ≡ 63)
    → 64 ≤ v % 128
    → v + 128 ≡ v % 128 + 2 ^ 64
    → extend (v % 128) ((result + v % 128 * 2 ^ shift) % 2 ^ 64) (shift + 7)
      ≡ (result + v * 2 ^ shift) % 2 ^ 64
extend_negative v result shift (inl room) high ones =
    let below : 2 ^ (shift + 7) ≤ 2 ^ 64 =
      pow-le-pow_right {n = 2} (omega arith) {i = shift + 7} {j = 64} (omega arith) in
    extend_on (v % 128) ((result + v % 128 * 2 ^ shift) % 2 ^ 64) (shift + 7) high room
    ∙ omega (arith, below, power_seven shift, ap (λ (t : ℕ). t * 2 ^ shift) ones)
extend_negative v result shift (inr last) high ones =
    extend_off (v % 128) ((result + v % 128 * 2 ^ shift) % 2 ^ 64) (shift + 7) (inr (omega arith))
    ∙ rw last (omega arith)

-- The last byte stands for all the bits above it.
extend_lem :
    (v result shift : ℕ)
    → v < 2 ^ 64
    → (shift + 7 < 64) ⊎ (shift ≡ 63)
    → arithmetic_shift v ≡ sign_fill (v % 128)
    → extend (v % 128) ((result + v % 128 * 2 ^ shift) % 2 ^ 64) (shift + 7)
      ≡ (result + v * 2 ^ shift) % 2 ^ 64
extend_lem v result shift small room stop = elim (dec_lt (v % 128) 64) [
  | yes lt ↦
      let plain : v % 128 ≡ v = ground arith in
      extend_off (v % 128) ((result + v % 128 * 2 ^ shift) % 2 ^ 64) (shift + 7) (inl lt)
      ∙ ap (λ (t : ℕ). (result + t * 2 ^ shift) % 2 ^ 64) plain
  | no ge ↦ extend_negative v result shift room (omega arith) (ground arith)
]

-- A value that needs no more rounds.
ends-short : (v : ℕ) → IsShort 0 v → arithmetic_shift v ≡ sign_fill (v % 128)
ends-short v h = elim (dec_lt v (2 ^ 63)) [
  | yes lt ↦ let bound = h.range.1 lt in ground arith
  | no ge ↦ let bound = h.range.0 (omega arith) in ground arith
]

abbrev ReadsBack : ℕ → ℕ → ℕ → ℕ → List ℕ → List ℕ → Type 0
ReadsBack k v result shift rest bs =
    (encode_signed_from k v ≡ some bs)
    × (decode_signed_from (bs ++ rest) result shift
        ≡ some ((result + v * 2 ^ shift) % 2 ^ 64, rest))

last_group :
    (k v result shift : ℕ) (rest : List ℕ)
    → v < 2 ^ 64
    → (shift + 7 < 64) ⊎ (shift ≡ 63)
    → arithmetic_shift v ≡ sign_fill (v % 128)
    → ReadsBack (suc k) v result shift rest (v % 128 ∷ [])
unfolding encode_signed_from
last_group k v result shift rest small room stop =
    let test : (arithmetic_shift v == sign_fill (v % 128)) ≡ true = ground arith in
    (
      simp test refl,
      read_last (v % 128) result shift rest (omega arith) (ground arith)
          ∙ ap (λ n. some (n, rest)) (extend_lem v result shift small room stop),
    )

more_groups :
    (k v result shift : ℕ) (rest bs : List ℕ)
    → v < 2 ^ 64
    → shift < 64
    → arithmetic_shift v ≢ sign_fill (v % 128)
    → ReadsBack k (arithmetic_shift v) ((result + v % 128 * 2 ^ shift) % 2 ^ 64) (shift + 7) rest bs
    → ReadsBack (suc k) v result shift rest ((v % 128 + 128) ∷ bs)
unfolding encode_signed_from
more_groups k v result shift rest bs small room go (e, d) =
    let test : (arithmetic_shift v == sign_fill (v % 128)) ≡ false = ground arith in
    let split = shifted v shift small in
    (
      simp (test, e) refl,
      read_more (v % 128) result shift (bs ++ rest) (omega arith) room
          ∙ d
          ∙ ap (λ n. some (n, rest)) (omega (arith, split)),
    )

signed_back :
    (k v result shift : ℕ) (rest : List ℕ)
    → IsShort k v
    → shift + 7 * suc k ≡ 70
    → (bs : List ℕ) × ReadsBack (suc k) v result shift rest bs
signed_back zero v result shift rest h room =
    (_, last_group 0 v result shift rest h.small (inr (omega arith)) (ends-short v h))
signed_back (suc k) v result shift rest h room =
    elim (ℕ_discrete (arithmetic_shift v) (sign_fill (v % 128))) [
      | yes e ↦ (_, last_group (suc k) v result shift rest h.small (inl (omega arith)) e)
      | no n ↦
          let (bs, b) =
            signed_back k (arithmetic_shift v) ((result + v % 128 * 2 ^ shift) % 2 ^ 64) (shift + 7)
              rest (shift-IsShort k v h) (omega arith) in
          (_, more_groups (suc k) v result shift rest bs h.small (omega arith) n b)
    ]

signed_decode-encode :
    (v : ℕ) (rest : List ℕ)
    → v < 2 ^ 64
    → (bs : List ℕ) × (encode_sleb128 v ≡ some bs) × (decode_sleb128 (bs ++ rest) ≡ some (v, rest))
unfolding encode_sleb128 decode_sleb128
signed_decode-encode v rest small =
    let short : IsShort 9 v = record { small = small; range = omega arith } in
    let (bs, (e, d)) = signed_back 9 v 0 0 rest short (omega arith) in
    let all : (0 + v * 2 ^ 0) % 2 ^ 64 ≡ v = omega arith in
    (bs, e, d ∙ ap (λ n. some (n, rest)) all)

-- For every pattern of 64 bits the loop of `encode_uleb128` ends after 1 to 10 bytes and that of
-- `encode_sleb128` after 10 rounds at most, and `decode_uleb128` and `decode_sleb128`, each on the
-- bytes of the other one of its pair with anything behind them, return the pattern and point behind
-- the bytes.
pub decode-encode_both :
    (v : ℕ) (rest : List ℕ)
    → v < 2 ^ 64
    → ((bs : List ℕ) × (encode_uleb128 v ≡ some bs)
        × (decode_uleb128 (bs ++ rest) ≡ some (v, rest))
        × (1 ≤ length bs)
        × (length bs ≤ 10))
      × ((bs : List ℕ) × (encode_sleb128 v ≡ some bs)
          × (decode_sleb128 (bs ++ rest) ≡ some (v, rest)))
decode-encode_both v rest small = (decode-encode v rest small, signed_decode-encode v rest small)
