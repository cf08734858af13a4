-- ===== src/Bytes/Laws.antt =====
-- Loads after stores: at the same place, and at places that do not meet.
use esp_tsdb.Prelude.{ℕ, ◌+◌, ◌-◌, ◌^◌, ◌≤◌, ◌<◌, ◌≡◌, ◌⊎◌, ◌∙◌, ap, arith}
use esp_tsdb.Bytes.{Mem, blit, get16, get32, put16, put32, le16, le32}

-- Two ranges of bytes that do not meet.
abbrev pub Apart : (o n p k : ℕ) → Type 0
Apart o n p k = (o + n ≤ p) ⊎ (p + k ≤ o)

pub blit_inside : (m src : Mem) (o n i q : ℕ) → q ≡ o + i → i < n → blit m o n src q ≡ src i
unfolding blit
blit_inside m src o n i q e h = ground (arith, ap src (let e' : q - o ≡ i = omega arith in e'))

pub blit_outside : (m src : Mem) (o n q : ℕ) → Apart o n q 1 → blit m o n src q ≡ m q
unfolding blit
blit_outside m src o n q h = ground arith

pub get16-blit : (m src : Mem) (o n p : ℕ) → Apart o n p 2 → get16 (blit m o n src) p ≡ get16 m p
unfolding get16
get16-blit m src o n p h =
    omega
      (arith, blit_outside m src o n p (omega arith), blit_outside m src o n (p + 1) (omega arith))

pub get32-blit : (m src : Mem) (o n p : ℕ) → Apart o n p 4 → get32 (blit m o n src) p ≡ get32 m p
unfolding get32
get32-blit m src o n p h = omega (
  arith,
  blit_outside m src o n p (omega arith),
  blit_outside m src o n (p + 1) (omega arith),
  blit_outside m src o n (p + 2) (omega arith),
  blit_outside m src o n (p + 3) (omega arith),
)

-- A load inside the bytes that were copied reads the source.
pub get16-blit_inside :
    (m src : Mem) (o n i p : ℕ) → p ≡ o + i → i + 2 ≤ n → get16 (blit m o n src) p ≡ get16 src i
unfolding get16
get16-blit_inside m src o n i p e h = omega (
  arith,
  blit_inside m src o n i p e (omega arith),
  blit_inside m src o n (i + 1) (p + 1) (omega arith) (omega arith),
)

pub get32-blit_inside :
    (m src : Mem) (o n i p : ℕ) → p ≡ o + i → i + 4 ≤ n → get32 (blit m o n src) p ≡ get32 src i
unfolding get32
get32-blit_inside m src o n i p e h = omega (
  arith,
  blit_inside m src o n i p e (omega arith),
  blit_inside m src o n (i + 1) (p + 1) (omega arith) (omega arith),
  blit_inside m src o n (i + 2) (p + 2) (omega arith) (omega arith),
  blit_inside m src o n (i + 3) (p + 3) (omega arith) (omega arith),
)

get16-le16 : (v : ℕ) → v < 2 ^ 16 → get16 (le16 v) 0 ≡ v
unfolding get16 le16
get16-le16 v h = omega arith

get32-le32 : (v : ℕ) → v < 2 ^ 32 → get32 (le32 v) 0 ≡ v
unfolding get32 le32
get32-le32 v h = omega arith

pub get16-put16 : (m : Mem) (o v : ℕ) → v < 2 ^ 16 → get16 (put16 m o v) o ≡ v
unfolding put16
get16-put16 m o v h =
    get16-blit_inside m (le16 v) o 2 0 o (omega arith) (omega arith) ∙ get16-le16 v h

pub get32-put32 : (m : Mem) (o v : ℕ) → v < 2 ^ 32 → get32 (put32 m o v) o ≡ v
unfolding put32
get32-put32 m o v h =
    get32-blit_inside m (le32 v) o 4 0 o (omega arith) (omega arith) ∙ get32-le32 v h

pub get16-put16_ne : (m : Mem) (o p v : ℕ) → Apart o 2 p 2 → get16 (put16 m o v) p ≡ get16 m p
unfolding put16
get16-put16_ne m o p v h = get16-blit m (le16 v) o 2 p h

pub get16-put32_ne : (m : Mem) (o p v : ℕ) → Apart o 4 p 2 → get16 (put32 m o v) p ≡ get16 m p
unfolding put32
get16-put32_ne m o p v h = get16-blit m (le32 v) o 4 p h

pub get32-put16_ne : (m : Mem) (o p v : ℕ) → Apart o 2 p 4 → get32 (put16 m o v) p ≡ get32 m p
unfolding put16
get32-put16_ne m o p v h = get32-blit m (le16 v) o 2 p h

pub get32-put32_ne : (m : Mem) (o p v : ℕ) → Apart o 4 p 4 → get32 (put32 m o v) p ≡ get32 m p
unfolding put32
get32-put32_ne m o p v h = get32-blit m (le32 v) o 4 p h
