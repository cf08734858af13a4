-- ===== src/Crc.antt =====
-- tsdb_crc32_ of src/tsdb_core.c.
use Prim.Native.Nat.{bit_and, bit_xor}
use esp_tsdb.Prelude.{ℕ, zero, suc, ◌+◌, ◌-◌, ◌/◌, ◌%◌, ◌≤◌, ◌<◌, ◌≡◌, ◌∙◌, ap, refl, arith}
use esp_tsdb.Bytes.{Mem}
use esp_tsdb.Format.{u32}

-- crc = (crc >> 1) ^ (0xEDB88320 & -(crc & 1))
crc_bit : ℕ → ℕ
crc_bit crc = bit_xor (crc / 2) (bit_and 0xEDB88320 ((u32 - crc % 2) % u32))

crc_bits : ℕ → ℕ → ℕ
unfolding crc_bit
crc_bits zero crc = crc
crc_bits (suc n) crc = crc_bits n (crc_bit crc)

-- The loop over the bytes from `i` on, `n` of them.
crc_loop : (n i : ℕ) → Mem → ℕ → ℕ
unfolding crc_bits
crc_loop zero i p crc = crc
crc_loop (suc n) i p crc = crc_loop n (i + 1) p (crc_bits 8 (bit_xor crc (p i)))

-- The complement `~crc` of a 32-bit word.
unfoldable pub crc32 : Mem → ℕ → ℕ
unfolding crc_loop
crc32 p len = u32 - 1 - crc_loop len 0 p 0xFFFFFFFF

pub crc32-lt : (p : Mem) (len : ℕ) → crc32 p len < u32
unfolding crc32
crc32-lt p len = omega arith

crc_loop-cong :
    (n i : ℕ) (p q : Mem) (crc : ℕ)
    → ((k : ℕ) → i ≤ k → k < i + n → p k ≡ q k)
    → crc_loop n i p crc ≡ crc_loop n i q crc
unfolding crc_loop
crc_loop-cong zero i p q crc h = refl
crc_loop-cong (suc n) i p q crc h =
    ap (λ b. crc_loop n (i + 1) p (crc_bits 8 (bit_xor crc b))) (h i (omega arith) (omega arith))
    ∙ crc_loop-cong n (i + 1) p q (crc_bits 8 (bit_xor crc (q i)))
        (λ k lo hi. h k (omega arith) (omega arith))

-- The checksum reads the bytes [0, len) and no others.
pub crc32-cong : (p q : Mem) (len : ℕ) → ((k : ℕ) → k < len → p k ≡ q k) → crc32 p len ≡ crc32 q len
unfolding crc32
crc32-cong p q len h =
    ap (λ c. u32 - 1 - c) (crc_loop-cong len 0 p q 0xFFFFFFFF (λ k lo hi. h k (omega arith)))

check_digits : Mem
check_digits i = 49 + i

-- The check value of CRC-32 (IEEE) for "123456789".
crc32_check : crc32 check_digits 9 ≡ 0xCBF43926
unfolding crc32 check_digits
crc32_check = refl
