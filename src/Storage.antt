-- ===== src/Storage.antt =====
-- Files as C's stdio shows them: fseek and fread or fwrite of one item, as tsdb_write.c and
-- tsdb_core.c call them. What goes wrong is chosen by the environment, call by call.
pub mod Laws
use esp_tsdb.Prelude.{
  ℕ, ◌+◌, ◌-◌, ◌<◌, Bool, true, false, ◌&&◌, leb, ltb, if◌then◌else◌, Option, none, some,
}
use esp_tsdb.Bytes.{Mem, zeros, blit, from_offset}

pub record File : Type 0 where
  pub size : ℕ
  pub bytes : Mem

abbrev pub empty_file : File
empty_file = record { size = 0; bytes = zeros }

-- How an fwrite ends: it reports every item, or only `n` bytes reach the file, with errno ENOSPC or
-- another error.
pub data Outcome : Type 0 where
  done : Outcome
  cut : (n : ℕ) → (enospc : Bool) → Outcome

abbrev pub is_done : Outcome → Bool
is_done done = true
is_done (cut n e) = false

-- fread(buf, n, 1, f) at offset `off`: the bytes, if the file has all of them.
unfoldable pub read_item : File → ℕ → ℕ → Option Mem
read_item f off n = if leb (off + n) f.size then some (from_offset f.bytes off) else none

-- The first `n` bytes of `src` at offset `off`. A file that was shorter than `off` is filled up
-- with zeros.
unfoldable pub store_bytes : File → ℕ → ℕ → Mem → File
store_bytes f off n src = record {
  size = if ltb f.size (off + n) then off + n else f.size;
  bytes =
      blit (if ltb f.size off then blit f.bytes f.size (off - f.size) zeros else f.bytes) off n src;
}

-- fwrite(src, n, 1, f) at offset `off`.
unfoldable pub write_item : File → ℕ → ℕ → Mem → Outcome → File
unfolding store_bytes
write_item f off n src done = store_bytes f off n src
write_item f off n src (cut k e) = store_bytes f off (if ltb k n then k else n) src
