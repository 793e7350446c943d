-- ===== src/Leb128.antt =====
-- The variable-length numbers of include/common/leb128.h. A buffer is the list of its bytes from the
-- pointer on, and a `u64` a number below 2 ^ 64.
pub mod RoundTrip
pub mod Signed
mod Tests
use ckpt.Prelude.{
  ℕ, zero, suc, ◌+◌, ◌*◌, ◌/◌, ◌%◌, ◌^◌, Option, none, some, List, [], ◌∷◌, ltb, leb, ◌==◌,
  if◌then◌else◌,
}

abbrev pub push : ℕ → Option (List ℕ) → Option (List ℕ)
push b none = none
push b (some bs) = some (b ∷ bs)

-- The bytes that the loop of `encode_uleb128` writes. `value & 0x7F` is `% 128`, `>>= 7` is `/ 128`,
-- and 0x80 is added, since the byte has its top bit clear. `none` is a loop that takes more than
-- `fuel` rounds.
unfoldable pub encode_from : ℕ → ℕ → Option (List ℕ)
encode_from zero value = none
encode_from (suc fuel) value =
    let rest = encode_from fuel (value / 128) in
    if value / 128 == 0 then some (value % 128 ∷ []) else push (value % 128 + 128) rest

unfoldable pub encode_uleb128 : ℕ → Option (List ℕ)
encode_uleb128 value = encode_from 10 value

-- The loop of `decode_uleb128`. The bits of `result` are below `shift`, so `|=` adds. `none` is what C
-- leaves undefined: a shift by 64 or more, or a read behind the buffer.
unfoldable pub decode_from : List ℕ → (result shift : ℕ) → Option (ℕ × List ℕ)
decode_from [] result shift = none
decode_from (b ∷ bs) result shift =
    let sum = (result + b % 128 * 2 ^ shift) % 2 ^ 64 in
    let rest = decode_from bs sum (shift + 7) in
    if leb 64 shift then none else if ltb b 128 then some (sum, bs) else rest

-- The value, and the bytes behind the pointer that is returned.
unfoldable pub decode_uleb128 : List ℕ → Option (ℕ × List ℕ)
decode_uleb128 p = decode_from p 0 0
