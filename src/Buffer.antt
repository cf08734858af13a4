-- ===== src/Buffer.antt =====
-- src/tsdb_buffer.c: the buffer pool, one contiguous allocation or up to 128 pages.
pub mod Flat
pub mod Alloc
use esp_tsdb.Prelude.{
  ℕ, zero, suc, ◌+◌, ◌-◌, ◌*◌, ◌/◌, ◌%◌, Bool, true, false, not, ◌||◌, ltb, leb, ◌==◌,
  if◌then◌else◌, Option, none, some,
}
use esp_tsdb.Bytes.{Mem, zeros, blit, from_offset}
use esp_tsdb.Format.{EspErr, esp_ok, err_invalid_arg, err_no_mem, add32, u32}

abbrev pub max_pages : ℕ
max_pages = 128

-- `tsdb_buffer_pool_t`: the content of each page, and whether its pointer is not NULL.
pub record Pool : Type 0 where
  pub pages : ℕ → Mem
  pub allocated : ℕ → Bool
  pub num_pages : ℕ
  pub page_size : ℕ
  pub total_size : ℕ
  pub is_paged : Bool

-- memset(pool, 0, sizeof(tsdb_buffer_pool_t))
abbrev pub zero_pool : Pool
zero_pool = record {
  pages = λ i. zeros;
  allocated = λ i. false;
  num_pages = 0;
  page_size = 0;
  total_size = 0;
  is_paged = false;
}

pub data AllocStrategy : Type 0 where
  internal_ram psram auto : AllocStrategy

-- The `MALLOC_CAP_*` sets that the allocator asks for.
pub data Caps : Type 0 where
  caps_spiram caps_internal_8bit : Caps

-- The capabilities for a strategy; `spiram_free` is heap_caps_get_free_size(MALLOC_CAP_SPIRAM).
unfoldable pub alloc_caps : AllocStrategy → (spiram_free total_size : ℕ) → Caps
alloc_caps psram spiram_free total_size = caps_spiram
alloc_caps internal_ram spiram_free total_size = caps_internal_8bit
alloc_caps auto spiram_free total_size =
    if ltb total_size spiram_free then caps_spiram else caps_internal_8bit

-- The heap: `gives i` says whether the i-th heap_caps_malloc succeeds, `content i` is what the
-- block it returns holds, and `live` counts the blocks that were given and not freed.
pub record Heap : Type 0 where
  pub gives : Caps → ℕ → Bool
  pub content : ℕ → Mem
  pub live : ℕ

unfoldable pub set_page : (ℕ → Mem) → ℕ → Mem → ℕ → Mem
set_page pages i m j = if j == i then m else pages j

unfoldable pub set_flag : (ℕ → Bool) → ℕ → Bool → ℕ → Bool
set_flag flags i b j = if j == i then b else flags j

-- for (j = 0; j < i; j++) { free(pages[j]); pages[j] = NULL; }, from j on with `n` rounds left.
unfoldable pub free_pages : (n j : ℕ) → Pool → Heap → Pool × Heap
unfolding set_flag
free_pages zero j p hp = (p, hp)
free_pages (suc n) j p hp =
    if p.allocated j
    then free_pages n (j + 1) (record p { allocated = set_flag p.allocated j false })
        (record hp { live = hp.live - 1 })
    else free_pages n (j + 1) p hp

-- The loop that allocates page i and the `n - 1` pages after it.
unfoldable pub alloc_pages : Caps → (n i : ℕ) → Pool → Heap → EspErr × Pool × Heap
unfolding set_flag set_page free_pages
alloc_pages caps zero i p hp = (esp_ok, p, hp)
alloc_pages caps (suc n) i p hp =
    let p' = record p {
      pages = set_page p.pages i (hp.content i);
      allocated = set_flag p.allocated i true;
      num_pages = p.num_pages + 1;
    } in
    let rest = alloc_pages caps n (i + 1) p' (record hp { live = hp.live + 1 }) in
    let (pf, hf) = free_pages i 0 p hp in if hp.gives caps i then rest else (err_no_mem, pf, hf)

-- The branch `use_paged`, on a pool with its sizes set. A size_t of the ESP32 has 32 bits.
unfoldable pub alloc_paged : Caps → Pool → Heap → EspErr × Pool × Heap
unfolding alloc_pages
alloc_paged caps p hp =
    let pages_needed = (p.total_size + p.page_size + u32 - 1) % u32 / p.page_size in
    if ltb max_pages pages_needed
    then (err_invalid_arg, p, hp)
    else alloc_pages caps pages_needed 0 p hp

-- The contiguous branch.
unfoldable pub alloc_contiguous : Caps → Pool → Heap → EspErr × Pool × Heap
unfolding set_page set_flag
alloc_contiguous caps p hp =
    let one = record p {
      pages = set_page p.pages 0 (hp.content 0);
      allocated = set_flag p.allocated 0 true;
      num_pages = 1;
    } in
    if hp.gives caps 0 then (esp_ok, one, record hp { live = hp.live + 1 }) else (err_no_mem, p, hp)

unfoldable pub alloc_buffer_pool :
    (total_size : ℕ) (use_paged : Bool) (page_size : ℕ) (strategy : AllocStrategy) (spiram_free : ℕ)
    → Pool
    → Heap
    → EspErr × Pool × Heap
unfolding alloc_caps alloc_paged alloc_contiguous
alloc_buffer_pool total_size use_paged page_size strategy spiram_free pool hp =
    let ps = if ltb 0 page_size then page_size else 2048 in
    let p = record zero_pool { page_size = ps; total_size = total_size; is_paged = use_paged } in
    let caps = alloc_caps strategy spiram_free total_size in
    if total_size == 0
    then (err_invalid_arg, pool, hp)
    else if use_paged
    then alloc_paged caps p hp
    else alloc_contiguous caps p hp

-- tsdb_free_buffer_pool
unfoldable pub free_buffer_pool : Pool → Heap → Pool × Heap
unfolding free_pages
free_buffer_pool p hp = let (q, hf) = free_pages p.num_pages 0 p hp in (zero_pool, hf)

-- A pointer into page `page`, `offset` bytes from its start.
pub record Ptr : Type 0 where
  pub page : ℕ
  pub offset : ℕ

-- tsdb_get_buffer_ptr: `none` is NULL.
unfoldable pub get_buffer_ptr : Pool → (offset size : ℕ) → Option Ptr
get_buffer_ptr p offset size =
    if p.num_pages == 0
    then none
    else if ltb p.total_size (add32 offset size)
    then none
    else if not p.is_paged
    then some (record { page = 0; offset = offset })
    else if ltb p.page_size (offset % p.page_size + size)
    then none
    else some (record { page = offset / p.page_size; offset = offset % p.page_size })

-- The bytes that one round of the copy loops moves.
unfoldable pub chunk_size : (page_size offset remaining : ℕ) → ℕ
chunk_size page_size offset remaining =
    let room = page_size - offset % page_size in if ltb remaining room then remaining else room

-- The `while (remaining > 0)` of tsdb_buffer_read. `pos` is dest_ptr - dest; each round copies at
-- least a byte, so `remaining` rounds are enough fuel.
unfoldable pub read_loop : (fuel : ℕ) → Pool → (offset remaining : ℕ) → Mem → (pos : ℕ) → Mem
unfolding chunk_size blit
read_loop zero p offset remaining dest pos = dest
read_loop (suc fuel) p offset remaining dest pos =
    let n = chunk_size p.page_size offset remaining in
    let page = p.pages (offset / p.page_size) in
    let dest' = blit dest pos n (from_offset page (offset % p.page_size)) in
    let rest = read_loop fuel p (offset + n) (remaining - n) dest' (pos + n) in
    if remaining == 0 then dest else rest

-- tsdb_buffer_read into `dest`.
unfoldable pub buffer_read : Pool → (offset size : ℕ) → Mem → Mem
unfolding read_loop
buffer_read p offset size dest =
    if size == 0
    then dest
    else if ltb p.total_size (add32 offset size)
    then dest
    else if not p.is_paged
    then blit dest 0 size (from_offset (p.pages 0) offset)
    else read_loop size p offset size dest 0

-- One round of the loop of tsdb_buffer_write: `n` bytes into the page of `offset`.
unfoldable pub write_round : Pool → (offset n : ℕ) → Mem → (pos : ℕ) → Pool
unfolding blit set_page
write_round p offset n src pos =
    let i = offset / p.page_size in
    let page = blit (p.pages i) (offset % p.page_size) n (from_offset src pos) in
    record p { pages = set_page p.pages i page }

unfoldable pub write_loop : (fuel : ℕ) → Pool → (offset remaining : ℕ) → Mem → (pos : ℕ) → Pool
unfolding chunk_size write_round
write_loop zero p offset remaining src pos = p
write_loop (suc fuel) p offset remaining src pos =
    let n = chunk_size p.page_size offset remaining in
    let rest =
      write_loop fuel (write_round p offset n src pos) (offset + n) (remaining - n) src (pos + n) in
    if remaining == 0 then p else rest

-- tsdb_buffer_write from `src`.
unfoldable pub buffer_write : Pool → (offset size : ℕ) → Mem → Pool
unfolding write_loop
buffer_write p offset size src =
    if size == 0
    then p
    else if ltb p.total_size (add32 offset size)
    then p
    else if not p.is_paged
    then record p { pages = set_page p.pages 0 (blit (p.pages 0) offset size src) }
    else write_loop size p offset size src 0
