-- ===== src/Ring/Frame.antt =====
-- What a block write does to the rows that the file holds.
use native.Mathlib.Decide.{dec_lt}
use esp_tsdb.Prelude.{
  ℕ, ◌+◌, ◌-◌, ◌*◌, ◌/◌, ◌%◌, ◌^◌, ◌≤◌, ◌<◌, ◌≡◌, ◌≢◌, inl, inr, arith, refl, ◌∙◌, sym, ap, ltb,
  some, if◌then◌else◌, ◌==◌, Option-cases, Bool-cases, ==_iff,
}
use esp_tsdb.Bytes.{Mem, get32, put16, put32, from_offset}
use esp_tsdb.Format.{
  Header, u32, block_size, blkt, param_pos, ts_pos, calc_block_offset, block_magic, block_ts,
}
use esp_tsdb.Storage.{File, Outcome, done, cut, store_bytes, write_item}
use esp_tsdb.Storage.Laws.{
  bytes-store_inside, bytes-store_outside, size-store_bytes, get32-store_inside, get16-store_inside,
}
use esp_tsdb.Handle.{Handle}
use esp_tsdb.Write.{Values, read_block, load_block, fill_block, new_block}
use esp_tsdb.Ring.{Row, Holds, IsGeometry, block_start}
use esp_tsdb.Ring.Cells.{
  Cell, in_tag, in_ts, in_param, get16-same, get32-same, param_inside, fill_block-Cell,
  fill_block-tag, fill_block-ts, fill_block-param,
}

-- The division of a slot into block and offset.
pub offset_lt : (s rpb : ℕ) → 0 < rpb → s % rpb < rpb
offset_lt s rpb h = omega arith

-- A row's cells lie in its block.
pub Cell-lt :
    (h : Header) (r x : ℕ)
    → IsGeometry h
    → r < h.records_per_block
    → Cell h.records_per_block h.num_params r x
    → x < 1024
Cell-lt h r x g lt (in_tag a) = omega arith
Cell-lt h r x g lt (in_ts a b) = omega (arith, g.columns_fit)
Cell-lt h r x g lt (in_param p k a b) =
    omega (arith, param_inside h.records_per_block h.num_params p r lt k g.columns_fit)

-- The bytes of a row's cells decide what the file holds in its slot.
pub Holds-frame :
    (h : Header) (f f' : File) (s : ℕ) (row : Row)
    → f.size ≤ f'.size
    → ((q x : ℕ)
        → q ≡ block_start h (s / h.records_per_block) + x
        → Cell h.records_per_block h.num_params (s % h.records_per_block) x
        → f'.bytes q ≡ f.bytes q)
    → Holds h f s row
    → Holds h f' s row
Holds-frame h f f' s row le same v = record {
  inside = omega (arith, v.inside);
  nowrap = v.nowrap;
  tagged = get32-same f'.bytes f.bytes start (λ i k. same (start + i) i refl (in_tag k)) ∙ v.tagged;
  stamped =
      get32-same f'.bytes f.bytes (start + (8 + r * 4)) (λ i k.
        same (start + (8 + r * 4) + i) (8 + r * 4 + i) (omega arith)
          (in_ts (omega arith) (omega arith)))
      ∙ v.stamped;
  columns = λ p k.
      get16-same f'.bytes f.bytes (start + param_pos h.records_per_block p r)
        (same (start + param_pos h.records_per_block p r) (param_pos h.records_per_block p r) refl
          (in_param p k (omega arith) (omega arith)))
        (same (start + param_pos h.records_per_block p r + 1)
          (param_pos h.records_per_block p r + 1) (omega arith)
          (in_param p k (omega arith) (omega arith)))
      ∙ v.columns p k;
}
  where
    start : ℕ
    start = block_start h (s / h.records_per_block)

    r : ℕ
    r = s % h.records_per_block

-- A write whose bytes agree with what the file has at `q` leaves `q` alone, however it ends.
pub bytes-write_item :
    (f : File) (off n q : ℕ) (src : Mem) (o : Outcome)
    → q < f.size
    → ((x : ℕ) → x < n → q ≡ off + x → src x ≡ f.bytes q)
    → (write_item f off n src o).bytes q ≡ f.bytes q
bytes-write_item f off n q src o lt same = go o
  where
    piece : (k : ℕ) → k ≤ n → (store_bytes f off k src).bytes q ≡ f.bytes q
    piece k le = elim (dec_lt q off) [
      | yes a ↦ bytes-store_outside f off k q src lt (omega arith)
      | no a ↦ elim (dec_lt q (off + k)) [
        | no b ↦ bytes-store_outside f off k q src lt (omega arith)
        | yes b ↦
            bytes-store_inside f off k (q - off) q src (omega arith) (omega arith)
            ∙ same (q - off) (omega arith) (omega arith)
      ]
    ]

    go : (o : Outcome) → (write_item f off n src o).bytes q ≡ f.bytes q
    go done = unfold write_item in piece n (omega arith)
    go (cut k e) = unfold write_item in piece (if ltb k n then k else n) (ground arith)

pub size-write_item :
    (f : File) (off n : ℕ) (src : Mem) (o : Outcome) → f.size ≤ (write_item f off n src o).size
unfolding write_item
size-write_item f off n src done = (size-store_bytes f off n src).0
size-write_item f off n src (cut k e) = (size-store_bytes f off (if ltb k n then k else n) src).0

-- No offset of a block that ends below 2 ^ 32 wraps.
pub calc_block_offset_lem :
    (h : Header) (b : ℕ) → block_start h (b + 1) ≤ u32 → calc_block_offset h b ≡ block_start h b
unfolding calc_block_offset
calc_block_offset_lem h b le = omega arith

pub get32-from_offset : (m : Mem) (o : ℕ) → get32 (from_offset m o) 0 ≡ get32 m o
unfolding get32
get32-from_offset m o =
    let z : m (o + 0) ≡ m o = ap m (let e : o + 0 ≡ o = omega arith in e) in omega (arith, z)

-- tsdb_read_block finds a row's block.
pub read_block-Holds :
    (db : Handle) (s : ℕ) (row : Row)
    → Holds db.header db.file s row
    → read_block db (s / db.header.records_per_block)
      ≡ some (from_offset db.file.bytes (block_start db.header (s / db.header.records_per_block)))
unfolding read_block
read_block-Holds db s row v =
    rw (calc_block_offset_lem db.header (s / db.header.records_per_block) v.nowrap)
      (ground (arith, v.inside))

load_block-Holds :
    (db : Handle) (s : ℕ) (row : Row)
    → Holds db.header db.file s row
    → load_block db (s / db.header.records_per_block)
      ≡ from_offset db.file.bytes (block_start db.header (s / db.header.records_per_block))
unfolding load_block
load_block-Holds db s row v =
    rw (read_block-Holds db s row v, load_block)
      (ground (
        arith,
        v.tagged,
        get32-from_offset db.file.bytes (block_start db.header (s / db.header.records_per_block)),
      ))

pub new_block-magic : get32 new_block 0 ≡ blkt
unfolding new_block get32 put16 put32
new_block-magic = refl

-- The block that is written into is tagged, found or new.
load_block-magic : (db : Handle) (b : ℕ) → get32 (load_block db b) 0 ≡ blkt
unfolding load_block
load_block-magic db b = elim (Option-cases (read_block db b)) [
  | inl e ↦ rw (e, load_block) new_block-magic
  | inr (m, e) ↦
      rw (e, load_block)
        (elim (Bool-cases (block_magic m == blkt)) [
          | inl same ↦ rw same ((==_iff (block_magic m) blkt).0 same)
          | inr other ↦ rw other new_block-magic
        ])
]

-- The image that tsdb_write_h stores for slot `s'`.
abbrev pub image : Handle → (s ts : ℕ) → Values → Mem
image db s ts v =
    fill_block db.header (s % db.header.records_per_block) ts v
      (load_block db (s / db.header.records_per_block))

-- The file after the write of that image.
abbrev pub after_write : Handle → (s ts : ℕ) → Values → Outcome → File
after_write db s ts v o =
    write_item db.file (calc_block_offset db.header (s / db.header.records_per_block)) block_size
      (image db s ts v) o

module _ (db : Handle) (g : IsGeometry db.header) (t ts : ℕ) (v : Values)
    (room : block_start db.header (t / db.header.records_per_block + 1) ≤ u32) where
  same_slot :
      (s : ℕ)
      → s / db.header.records_per_block ≡ t / db.header.records_per_block
      → s % db.header.records_per_block ≡ t % db.header.records_per_block
      → s ≡ t
  same_slot s d m = grind arith

  -- However the block write of slot `t` ends, every other slot keeps its row.
  pub Holds-after_write :
      (o : Outcome) (s : ℕ) (row : Row)
      → s ≢ t
      → Holds db.header db.file s row
      → Holds db.header (after_write db t ts v o) s row
  Holds-after_write o s row ne held =
      Holds-frame db.header db.file (after_write db t ts v o) s row
        (size-write_item db.file _ block_size (image db t ts v) o)
        (λ q x e c.
          bytes-write_item db.file off block_size q (image db t ts v) o
            (omega (arith, held.inside, small x c)) (λ y ly ey. agree q x y e c ly ey))
        held
    where
      rpb : ℕ
      rpb = db.header.records_per_block

      off : ℕ
      off = calc_block_offset db.header (t / rpb)

      small : (x : ℕ) → Cell rpb db.header.num_params (s % rpb) x → x < 1024
      small x c = Cell-lt db.header (s % rpb) x g (offset_lt s rpb g.rpb_pos) c

      off_lem : off ≡ block_start db.header (t / rpb)
      off_lem = calc_block_offset_lem db.header (t / rpb) room

      agree :
          (q x y : ℕ)
          → q ≡ block_start db.header (s / rpb) + x
          → Cell rpb db.header.num_params (s % rpb) x
          → y < 1024
          → q ≡ off + y
          → image db t ts v y ≡ db.file.bytes q
      agree q x y e c ly ey =
          let b : s / rpb ≡ t / rpb = omega (arith, off_lem, small x c) in
          let xy : x ≡ y = omega (arith, off_lem, b) in
          let r : s % rpb ≢ t % rpb = λ m. ne (same_slot s b m) in
          fill_block-Cell db.header (t % rpb) ts v (load_block db (t / rpb))
            (offset_lt t rpb g.rpb_pos) (s % rpb) y (offset_lt s rpb g.rpb_pos) r (rw (← xy) c)
          ∙ ap (λ k. load_block db k y) (sym b)
          ∙ ap (λ m. m y) (load_block-Holds db s row held)
          ∙ ap db.file.bytes
              (let e' : block_start db.header (s / rpb) + y ≡ q = omega (arith, xy) in e')

  -- The block write of slot `t`, when it is done, leaves the record in the slot.
  pub after_write-Holds :
      ts < 2 ^ 32
      → ((p : ℕ) → p < db.header.num_params → v p < 2 ^ 16)
      → Holds db.header (after_write db t ts v done) t (record { ts = ts; vals = v })
  unfolding write_item
  after_write-Holds small fits = record {
    inside = omega (arith, off_lem, (size-store_bytes db.file off block_size img).1);
    nowrap = room;
    tagged =
        get32-at 0 (block_start db.header (t / rpb)) (omega (arith, off_lem)) (omega arith)
        ∙ get32-same img (load_block db (t / rpb)) 0 (λ i k. tag_byte i k)
        ∙ load_block-magic db (t / rpb);
    stamped =
        get32-at (ts_pos r) (block_start db.header (t / rpb) + (8 + r * 4)) (omega (arith, off_lem))
          (omega (arith, g.columns_fit))
        ∙ unfold block_ts in fill_block-ts db.header r ts v (load_block db (t / rpb)) r_lt small;
    columns = λ p k.
        unfold write_item in
        get16-store_inside db.file off block_size (param_pos rpb p r)
          (block_start db.header (t / rpb) + param_pos rpb p r) img (omega (arith, off_lem))
          (param_inside rpb db.header.num_params p r r_lt k g.columns_fit)
        ∙ fill_block-param db.header r ts v (load_block db (t / rpb)) r_lt p k (fits p k);
  }
    where
      rpb : ℕ
      rpb = db.header.records_per_block

      r : ℕ
      r = t % rpb

      r_lt : r < rpb
      r_lt = offset_lt t rpb g.rpb_pos

      off : ℕ
      off = calc_block_offset db.header (t / rpb)

      img : Mem
      img = image db t ts v

      off_lem : off ≡ block_start db.header (t / rpb)
      off_lem = calc_block_offset_lem db.header (t / rpb) room

      get32-at :
          (i q : ℕ)
          → q ≡ off + i
          → i + 4 ≤ block_size
          → get32 (write_item db.file off block_size img done).bytes q ≡ get32 img i
      get32-at i q e le =
          unfold write_item in get32-store_inside db.file off block_size i q img e le

      tag_byte : (i : ℕ) → i < 4 → img (0 + i) ≡ load_block db (t / rpb) (0 + i)
      tag_byte i k =
          fill_block-tag db.header r ts v (load_block db (t / rpb)) r_lt (0 + i) (omega arith)
