-- ===== src/Leb128/Tests.antt =====
-- Numbers of one and of several bytes.
use ckpt.Prelude.{ℕ, ◌-◌, ◌^◌, ◌≤◌, ◌≡◌, refl, some, List, [], ◌∷◌, ◌++◌, length, arith}
use ckpt.Leb128.{encode_from, encode_uleb128, decode_from, decode_uleb128}
use ckpt.Leb128.Signed.{encode_signed_from, encode_sleb128, decode_sleb128}
use ckpt.Leb128.Signed.Laws.{decode-encode_both}

three_bytes : encode_uleb128 624485 ≡ some (229 ∷ 142 ∷ 38 ∷ [])
unfolding encode_uleb128 encode_from
three_bytes = refl

padded_zero : decode_uleb128 (128 ∷ 0 ∷ 5 ∷ []) ≡ some (0, 5 ∷ [])
unfolding decode_uleb128 decode_from
padded_zero = refl

minus_123456 : encode_sleb128 (2 ^ 64 - 123456) ≡ some (192 ∷ 187 ∷ 120 ∷ [])
unfolding encode_sleb128 encode_signed_from
minus_123456 = refl

least :
    encode_sleb128 (2 ^ 63) ≡ some (128 ∷ 128 ∷ 128 ∷ 128 ∷ 128 ∷ 128 ∷ 128 ∷ 128 ∷ 128 ∷ 127 ∷ [])
unfolding encode_sleb128 encode_signed_from
least = refl

decode-encode_both_example :
    ((bs : List ℕ) × (encode_uleb128 624485 ≡ some bs)
      × (decode_uleb128 (bs ++ (7 ∷ [])) ≡ some (624485, 7 ∷ []))
      × (1 ≤ length bs)
      × (length bs ≤ 10))
    × ((bs : List ℕ) × (encode_sleb128 624485 ≡ some bs)
        × (decode_sleb128 (bs ++ (7 ∷ [])) ≡ some (624485, 7 ∷ [])))
decode-encode_both_example = decode-encode_both 624485 (7 ∷ []) (omega arith)
