-- ===== src/Storage/Laws.antt =====
-- Reads after writes on a file.
use esp_tsdb.Prelude.{ℕ, ◌+◌, ◌≤◌, ◌<◌, ◌≡◌, arith}
use esp_tsdb.Bytes.{Mem, blit, get16, get32}
use esp_tsdb.Bytes.Laws.{Apart, blit_inside, get16-blit_inside, get32-blit_inside}
use esp_tsdb.Storage.{File, store_bytes}

-- A store shows at its own bytes, and leaves every other byte that the file had.
pub bytes-store_inside :
    (f : File) (off n i q : ℕ) (src : Mem)
    → q ≡ off + i
    → i < n
    → (store_bytes f off n src).bytes q ≡ src i
unfolding store_bytes
bytes-store_inside f off n i q src e lt = blit_inside _ src off n i q e lt

pub bytes-store_outside :
    (f : File) (off n q : ℕ) (src : Mem)
    → q < f.size
    → Apart off n q 1
    → (store_bytes f off n src).bytes q ≡ f.bytes q
unfolding store_bytes blit
bytes-store_outside f off n q src lt ap = ground arith

pub size-store_bytes :
    (f : File) (off n : ℕ) (src : Mem)
    → (f.size ≤ (store_bytes f off n src).size) × (off + n ≤ (store_bytes f off n src).size)
unfolding store_bytes
size-store_bytes f off n src = ground arith

pub get32-store_outside :
    (f : File) (off n q : ℕ) (src : Mem)
    → q + 4 ≤ f.size
    → Apart off n q 4
    → get32 (store_bytes f off n src).bytes q ≡ get32 f.bytes q
unfolding get32
get32-store_outside f off n q src lt ap = omega (
  arith,
  bytes-store_outside f off n q src (omega arith) (omega arith),
  bytes-store_outside f off n (q + 1) src (omega arith) (omega arith),
  bytes-store_outside f off n (q + 2) src (omega arith) (omega arith),
  bytes-store_outside f off n (q + 3) src (omega arith) (omega arith),
)

pub get16-store_outside :
    (f : File) (off n q : ℕ) (src : Mem)
    → q + 2 ≤ f.size
    → Apart off n q 2
    → get16 (store_bytes f off n src).bytes q ≡ get16 f.bytes q
unfolding get16
get16-store_outside f off n q src lt ap = omega (
  arith,
  bytes-store_outside f off n q src (omega arith) (omega arith),
  bytes-store_outside f off n (q + 1) src (omega arith) (omega arith),
)

pub get32-store_inside :
    (f : File) (off n i q : ℕ) (src : Mem)
    → q ≡ off + i
    → i + 4 ≤ n
    → get32 (store_bytes f off n src).bytes q ≡ get32 src i
unfolding store_bytes
get32-store_inside f off n i q src e lt = get32-blit_inside _ src off n i q e lt

pub get16-store_inside :
    (f : File) (off n i q : ℕ) (src : Mem)
    → q ≡ off + i
    → i + 2 ≤ n
    → get16 (store_bytes f off n src).bytes q ≡ get16 src i
unfolding store_bytes
get16-store_inside f off n i q src e lt = get16-blit_inside _ src off n i q e lt
