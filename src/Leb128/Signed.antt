-- ===== src/Leb128/Signed.antt =====
-- The signed numbers of include/common/leb128.h. An `s64` is its pattern of 64 bits.
pub mod Laws
use ckpt.Prelude.{
  ℕ, zero, suc, ◌+◌, ◌-◌, ◌*◌, ◌/◌, ◌%◌, ◌^◌, Bool, true, false, ◌&&◌, Option, none, some, List, [],
  ◌∷◌, ltb, leb, ◌==◌, if◌then◌else◌,
}
use ckpt.Leb128.{push}

-- `value >> 7`, which copies the sign bit.
abbrev pub arithmetic_shift : ℕ → ℕ
arithmetic_shift v = if leb (2 ^ 63) v then v / 128 + (2 ^ 64 - 2 ^ 57) else v / 128

-- `(byte & 0x40) ? -1 : 0`
abbrev pub sign_fill : ℕ → ℕ
sign_fill byte = if leb 64 byte then 2 ^ 64 - 1 else 0

-- The bytes that the loop of `encode_sleb128` writes; `none` is a loop of more than `fuel` rounds.
unfoldable pub encode_signed_from : ℕ → ℕ → Option (List ℕ)
encode_signed_from zero value = none
encode_signed_from (suc fuel) value =
    let byte = value % 128 in
    let next = arithmetic_shift value in
    let rest = encode_signed_from fuel next in
    if next == sign_fill byte then some (byte ∷ []) else push (byte + 128) rest

unfoldable pub encode_sleb128 : ℕ → Option (List ℕ)
encode_sleb128 value = encode_signed_from 10 value

-- The sign after the last byte `b`, with `shift` behind it.
abbrev pub extend : (b sum shift : ℕ) → ℕ
extend b sum shift = if ltb shift 64 && leb 64 b then (sum + (2 ^ 64 - 2 ^ shift)) % 2 ^ 64 else sum

-- The loop of `decode_sleb128` with the extension of the sign; a bit that is shifted out of the 64 is
-- lost. `none` is a shift by 64 or more, or a read behind the buffer.
unfoldable pub decode_signed_from : List ℕ → (result shift : ℕ) → Option (ℕ × List ℕ)
decode_signed_from [] result shift = none
decode_signed_from (b ∷ bs) result shift =
    let sum = (result + b % 128 * 2 ^ shift) % 2 ^ 64 in
    let rest = decode_signed_from bs sum (shift + 7) in
    if leb 64 shift then none else if ltb b 128 then some (extend b sum (shift + 7), bs) else rest

unfoldable pub decode_sleb128 : List ℕ → Option (ℕ × List ℕ)
decode_sleb128 p = decode_signed_from p 0 0
