-- ===== src/Buffer/Flat.antt =====
-- The pool as one flat buffer: paged copies, contiguous copies and zero-copy pointers all agree
-- with it.
use esp_tsdb.Prelude.{
  ℕ, zero, suc, ◌+◌, ◌-◌, ◌/◌, ◌%◌, ◌≤◌, ◌<◌, ◌≡◌, some, arith, if◌then◌else◌, Bool-cases, ◌==◌,
  inl, inr, ◌∙◌, ap, sym, ==_iff, refl,
}
use native.Mathlib.Nat.{le_refl}
use esp_tsdb.Bytes.{Mem, blit, from_offset}
use esp_tsdb.Bytes.Laws.{blit_inside}
use esp_tsdb.Format.{u32}
use esp_tsdb.Buffer.{
  Pool, Ptr, get_buffer_ptr, chunk_size, read_loop, buffer_read, write_round, write_loop,
  buffer_write,
}

-- The byte at logical offset `q`.
abbrev pub flat : Pool → Mem
flat p q = if p.is_paged then p.pages (q / p.page_size) (q % p.page_size) else p.pages 0 q

-- Offsets of one page: the division and the remainder.
pub page_step :
    (ps off i : ℕ)
    → 0 < ps
    → i < ps - off % ps
    → ((off + i) / ps ≡ off / ps) × ((off + i) % ps ≡ off % ps + i)
page_step ps off i h lt = grind arith

chunk_pos :
    (ps off r : ℕ)
    → 0 < ps
    → 0 < r
    → (0 < chunk_size ps off r) × (chunk_size ps off r ≤ r) × (chunk_size ps off r ≤ ps - off % ps)
unfolding chunk_size
chunk_pos ps off r h k = grind arith

-- Two offsets of one page lie as far apart as their remainders.
same_page : (ps q off : ℕ) → q / ps ≡ off / ps → q + off % ps ≡ off + q % ps
same_page ps q off e = grind arith

in_page : (ps off n q : ℕ) → 0 < ps → n ≤ ps - off % ps → off ≤ q → q < off + n → q / ps ≡ off / ps
in_page ps off n q pos le lo hi =
    let e : off + (q - off) ≡ q = omega arith in
    let (d, m) = page_step ps off (q - off) pos (omega arith) in ap (λ t. t / ps) (sym e) ∙ d

abbrev paged : Pool → Mem
paged p q = p.pages (q / p.page_size) (q % p.page_size)

-- One round of the write loop, seen on the flat buffer.
write_page :
    (p : Pool) (off n pos q : ℕ) (src : Mem)
    → 0 < p.page_size
    → n ≤ p.page_size - off % p.page_size
    → paged (write_round p off n src pos) q ≡ blit (paged p) off n (from_offset src pos) q
unfolding write_round
write_page p off n pos q src h le =
    ground (arith, same_page p.page_size q off, in_page p.page_size off n q h le)

-- One round of the read loop, into the destination.
read_page :
    (p : Pool) (off n pos q : ℕ) (dest : Mem)
    → 0 < p.page_size
    → n ≤ p.page_size - off % p.page_size
    → blit dest pos n (from_offset (p.pages (off / p.page_size)) (off % p.page_size)) q
      ≡ blit dest pos n (from_offset (paged p) off) q
unfolding blit
read_page p off n pos q dest h le = ground (arith, page_step p.page_size off (q - pos) h)

blit-blit :
    (m src : Mem) (off n r pos q : ℕ)
    → n ≤ r
    → blit (blit m off n (from_offset src pos)) (off + n) (r - n) (from_offset src (pos + n)) q
      ≡ blit m off r (from_offset src pos) q
unfolding blit
blit-blit m src off n r pos q le = ground (
  arith,
  λ (h : off + n ≤ q).
      ap src (let e : pos + n + (q - (off + n)) ≡ pos + (q - off) = omega arith in e),
)

blit-cong : (m m' src : Mem) (off n q : ℕ) → m q ≡ m' q → blit m off n src q ≡ blit m' off n src q
unfolding blit
blit-cong m m' src off n q e = ground arith

blit-zero : (m src : Mem) (off r q : ℕ) → r ≡ 0 → m q ≡ blit m off r src q
unfolding blit
blit-zero m src off r q e = ground arith

write_loop-paged :
    (fuel : ℕ) (p : Pool) (off r pos q : ℕ) (src : Mem)
    → 0 < p.page_size
    → r ≤ fuel
    → paged (write_loop fuel p off r src pos) q ≡ blit (paged p) off r (from_offset src pos) q
unfolding write_loop
write_loop-paged zero p off r pos q src h le =
    blit-zero (paged p) (from_offset src pos) off r q (omega arith)
write_loop-paged (suc fuel) p off r pos q src h le = elim (Bool-cases (r == 0)) [
  | inl e ↦ rw e (blit-zero (paged p) (from_offset src pos) off r q ((==_iff r 0).0 e))
  | inr e ↦
      let n = chunk_size p.page_size off r in
      let (pos_n, n_le, n_room) = chunk_pos p.page_size off r h (ground arith) in
      let p' = write_round p off n src pos in
      rw e (
        write_loop-paged fuel p' (off + n) (r - n) (pos + n) q src h (omega arith)
        ∙ blit-cong (paged p') (blit (paged p) off n (from_offset src pos))
            (from_offset src (pos + n)) (off + n) (r - n) q (write_page p off n pos q src h n_room)
        ∙ blit-blit (paged p) src off n r pos q n_le)
]

-- The write loop changes the pages alone.
shape-write_loop :
    (fuel : ℕ) (p : Pool) (off r pos : ℕ) (src : Mem)
    → ((write_loop fuel p off r src pos).is_paged ≡ p.is_paged)
      × ((write_loop fuel p off r src pos).page_size ≡ p.page_size)
      × ((write_loop fuel p off r src pos).total_size ≡ p.total_size)
      × ((write_loop fuel p off r src pos).num_pages ≡ p.num_pages)
unfolding write_loop
shape-write_loop zero p off r pos src = (refl, refl, refl, refl)
shape-write_loop (suc fuel) p off r pos src =
    let n = chunk_size p.page_size off r in
    ground
      (arith, shape-write_loop fuel (write_round p off n src pos) (off + n) (r - n) (pos + n) src)

read_loop-paged :
    (fuel : ℕ) (p : Pool) (off r pos q : ℕ) (dest : Mem)
    → 0 < p.page_size
    → r ≤ fuel
    → read_loop fuel p off r dest pos q ≡ blit dest pos r (from_offset (paged p) off) q
unfolding read_loop
read_loop-paged zero p off r pos q dest h le =
    blit-zero dest (from_offset (paged p) off) pos r q (omega arith)
read_loop-paged (suc fuel) p off r pos q dest h le = elim (Bool-cases (r == 0)) [
  | inl e ↦ rw e (blit-zero dest (from_offset (paged p) off) pos r q ((==_iff r 0).0 e))
  | inr e ↦
      let n = chunk_size p.page_size off r in
      let (pos_n, n_le, n_room) = chunk_pos p.page_size off r h (ground arith) in
      let page = from_offset (p.pages (off / p.page_size)) (off % p.page_size) in
      rw e (
        read_loop-paged fuel p (off + n) (r - n) (pos + n) q (blit dest pos n page) h (omega arith)
        ∙ blit-cong (blit dest pos n page) (blit dest pos n (from_offset (paged p) off))
            (from_offset (paged p) (off + n)) (pos + n) (r - n) q
            (read_page p off n pos q dest h n_room)
        ∙ blit-blit dest (paged p) pos n r off q n_le)
]

-- A usable pool: pages of at least a byte, and a size that is a size_t.
pub record IsUsable (p : Pool) : Type 0 where
  pub some_page : 0 < p.num_pages
  pub page_pos : 0 < p.page_size
  pub size_fits : p.total_size < u32

module _ (p : Pool) (v : IsUsable p) (offset size : ℕ) (inside : offset + size ≤ p.total_size) where
  -- tsdb_buffer_write of a region inside a usable pool stores exactly the source at it, whether the pool
  -- is paged or not, and no other byte changes.
  pub flat-buffer_write :
      (src : Mem) (q : ℕ)
      → flat (buffer_write p offset size src) q ≡ blit (flat p) offset size src q
  unfolding buffer_write
  flat-buffer_write src q = ground (
    arith,
    write_loop-paged size p offset size 0 q src v.page_pos (le_refl size),
    shape-write_loop size p offset size 0 src,
    blit-zero (flat p) src offset size q,
  )

  -- tsdb_buffer_read of a region inside a usable pool fills the destination with its bytes, and no
  -- more, whether the pool is paged or not.
  pub buffer_read-flat :
      (dest : Mem) (q : ℕ)
      → buffer_read p offset size dest q ≡ blit dest 0 size (from_offset (flat p) offset) q
  unfolding buffer_read
  buffer_read-flat dest q = ground (
    arith,
    read_loop-paged size p offset size 0 q dest v.page_pos (le_refl size),
    blit-zero dest (from_offset (flat p) offset) 0 size q,
  )

  -- In a usable pool, for a region inside it, a pointer that tsdb_get_buffer_ptr gives and that is
  -- not NULL points at all the bytes of the region, in one page.
  pub get_buffer_ptr-flat :
      (ptr : Ptr)
      → get_buffer_ptr p offset size ≡ some ptr
      → (i : ℕ) → i < size
      → p.pages ptr.page (ptr.offset + i) ≡ flat p (offset + i)
  unfolding get_buffer_ptr
  get_buffer_ptr-flat ptr e i lt = ground (arith, page_step p.page_size offset i)

buffer_write-IsUsable :
    (p : Pool) (offset size : ℕ) (src : Mem)
    → IsUsable p
    → IsUsable (buffer_write p offset size src)
      × ((buffer_write p offset size src).total_size ≡ p.total_size)
unfolding buffer_write
buffer_write-IsUsable p offset size src v =
    ground (arith, shape-write_loop size p offset size 0 src)

-- The bytes that tsdb_buffer_write stores in a region inside a usable pool are the bytes that
-- tsdb_buffer_read then gets from it.
pub buffer_read-buffer_write :
    (p : Pool) (offset size : ℕ)
    → IsUsable p
    → offset + size ≤ p.total_size
    → (src dest : Mem) (i : ℕ) → i < size
    → buffer_read (buffer_write p offset size src) offset size dest i ≡ src i
buffer_read-buffer_write p offset size v inside src dest i lt =
    let p' = buffer_write p offset size src in
    let (v', same) = buffer_write-IsUsable p offset size src v in
    buffer_read-flat p' v' offset size (omega arith) dest i
    ∙ blit_inside dest (from_offset (flat p') offset) 0 size i i (omega arith) lt
    ∙ flat-buffer_write p v offset size inside src (offset + i)
    ∙ blit_inside (flat p) src offset size i (offset + i) refl lt
