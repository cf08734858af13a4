-- ===== src/Bytes.antt =====
-- Memory as bytes: what `memcpy`, `memset` and the little-endian loads and stores through a cast
-- pointer do in tsdb_write.c, tsdb_query.c and tsdb_core.c.
pub mod Laws
use esp_tsdb.Prelude.{ℕ, ◌+◌, ◌-◌, ◌*◌, ◌/◌, ◌%◌, Bool, ◌&&◌, ltb, leb, ◌==◌, if◌then◌else◌}

-- A buffer: the byte at each offset.
abbrev pub Mem : Type 0
Mem = ℕ → ℕ

-- memset(buf, 0, n)
abbrev pub zeros : Mem
zeros q = 0

-- Whether offset `q` is one of the `n` bytes from `o` on.
abbrev pub within : ℕ → ℕ → ℕ → Bool
within o n q = leb o q && ltb q (o + n)

-- memcpy(m + o, src, n)
unfoldable pub blit : Mem → ℕ → ℕ → Mem → Mem
blit m o n src q = if within o n q then src (q - o) else m q

-- The bytes from offset `o` on, as a buffer of their own.
abbrev pub from_offset : Mem → ℕ → Mem
from_offset m o q = m (o + q)

-- Byte `i` of a number of 2 or 4 bytes, the lowest first.
unfoldable pub le16 : ℕ → Mem
le16 v i = if i == 0 then v % 256 else v / 256 % 256

unfoldable pub le32 : ℕ → Mem
le32 v i =
    if i == 0
    then v % 256
    else if i == 1
    then v / 256 % 256
    else if i == 2
    then v / 65536 % 256
    else v / 16777216 % 256

unfoldable pub get16 : Mem → ℕ → ℕ
get16 m o = m o + 256 * m (o + 1)

unfoldable pub get32 : Mem → ℕ → ℕ
get32 m o = m o + 256 * m (o + 1) + 65536 * m (o + 2) + 16777216 * m (o + 3)

unfoldable pub put8 : Mem → ℕ → ℕ → Mem
unfolding blit
put8 m o v = blit m o 1 (λ i. v % 256)

unfoldable pub put16 : Mem → ℕ → ℕ → Mem
unfolding blit le16
put16 m o v = blit m o 2 (le16 v)

unfoldable pub put32 : Mem → ℕ → ℕ → Mem
unfolding blit le32
put32 m o v = blit m o 4 (le32 v)
